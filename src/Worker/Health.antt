-- ===== src/Worker/Health.antt =====
-- The health endpoint (worker/src/health.ts): the state, its updates, and the answer to a request.
use clearbook.Prelude.{
  ℕ, ℤ, Bool, true, false, ◌||◌, Option, none, some, List, [], ◌∷◌, ◌==◌, if◌then◌else◌,
}
use clearbook.Text.{Text, codes, text_eq}
use clearbook.Text.Assoc.{Assoc}
use clearbook.Metrics.{Metrics, Histogram, snapshot}
use clearbook.Db.{FactState, coalesce}

pub data HealthStatus : Type 0 where
  starting ok degraded : HealthStatus

-- An absent field is `none`; a `null` in it is `some none`.
pub record ChainHealth : Type 0 where
  pub chain_id : Option ℕ
  pub attested_height : Option ℕ
  pub source_head : Option ℕ
  pub cursor : Option (Option ℕ)
  pub cursor_lag : Option (Option ℤ)

pub record HealthState : Type 0 where
  pub status : HealthStatus
  pub started_at : Text
  pub last_scan_at : Option Text
  pub last_error : Option Text
  pub chains : List (ℕ × ChainHealth)
  pub db_connected : Bool
  pub facts_by_state : FactState → Option ℕ

-- `Partial<HealthState>`, in the fields that the worker passes.
pub record HealthPatch : Type 0 where
  pub status : Option HealthStatus
  pub last_scan_at : Option Text
  pub last_error : Option Text
  pub db_connected : Option Bool
  pub facts_by_state : Option (FactState → Option ℕ)

abbrev pub no_change : HealthPatch
no_change = record {
  status = none;
  last_scan_at = none;
  last_error = none;
  db_connected = none;
  facts_by_state = none;
}

-- The constructor, at `now`.
abbrev pub new_health : Text → HealthState
new_health now = record {
  status = starting;
  started_at = now;
  last_scan_at = none;
  last_error = none;
  chains = [];
  db_connected = false;
  facts_by_state = λ state. none;
}

-- A field of the patch replaces that of the state, where the patch has it.
abbrev pub over : {A : Type 0} → Option A → A → A
over none old = old
over (some new) old = new

unfoldable pub update : HealthPatch → HealthState → HealthState
update patch s = record s {
  status = over patch.status s.status;
  last_scan_at = coalesce patch.last_scan_at s.last_scan_at;
  last_error = coalesce patch.last_error s.last_error;
  db_connected = over patch.db_connected s.db_connected;
  facts_by_state = over patch.facts_by_state s.facts_by_state;
}

-- `{ ...(old ?? {}), ...patch }`
abbrev pub merged_chain : ChainHealth → ChainHealth → ChainHealth
merged_chain patch old = record {
  chain_id = coalesce patch.chain_id old.chain_id;
  attested_height = coalesce patch.attested_height old.attested_height;
  source_head = coalesce patch.source_head old.source_head;
  cursor = coalesce patch.cursor old.cursor;
  cursor_lag = coalesce patch.cursor_lag old.cursor_lag;
}

abbrev pub merge_chain : ℕ → ChainHealth → List (ℕ × ChainHealth) → List (ℕ × ChainHealth)
merge_chain key patch [] = (key, patch) ∷ []
merge_chain key patch ((k, old) ∷ rest) =
    if k == key then (k, merged_chain patch old) ∷ rest else (k, old) ∷ merge_chain key patch rest

unfoldable pub update_chain : ℕ → ChainHealth → HealthState → HealthState
update_chain key patch s = record s { chains = merge_chain key patch s.chains }

pub data Answer : Type 0 where
  -- The status of the reply with the state and the metrics.
  reports : ℕ → HealthState → Assoc ℕ × Assoc Histogram → Answer
  not_found : Answer

abbrev pub is_ok : HealthStatus → Bool
is_ok starting = false
is_ok ok = true
is_ok degraded = false

-- The listener of the server.
unfoldable pub respond : Text → Metrics → HealthState → Answer
respond url metrics s =
    if text_eq url (codes "/health") || text_eq url (codes "/")
    then reports (if is_ok s.status then 200 else 503) s (snapshot metrics)
    else not_found
