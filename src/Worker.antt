-- ===== src/Worker.antt =====
-- The worker's pipeline: its object, the services that it calls, and its errors (worker/src/main.ts,
-- prove.ts, precheck.ts, submit.ts). A service is not part of the repository: what it answers is any
-- function of the calls made so far. Clocks and log lines are left out but for the measured times.
pub mod Prove
pub mod Submit
pub mod Advance
pub mod Health
pub mod Discover
pub mod Tick
use clearbook.Prelude.{ℕ, Bool, Option, List, [], ◌∷◌}
use clearbook.Text.{Text, codes}
use clearbook.Async.{Settled, resolved, rejected, Exec, modify}
use clearbook.Metrics.{Metrics, increment, observe}
use clearbook.Db.{Db}

pub record Sibling : Type 0 where
  pub hash : Text
  pub is_left : Bool

pub record ProofBundle : Type 0 where
  pub chain_key : ℕ
  pub header_number : ℕ
  pub tx_index : ℕ
  pub tx_hash : Text
  pub tx_bytes : Text
  pub merkle_root : Text
  pub siblings : List Sibling
  pub lower_endpoint_digest : Text
  pub roots : List Text
  pub cached : Bool

pub data ProofFailureClass : Type 0 where
  not_attested not_found service_error : ProofFailureClass

-- What a method of the worker throws: a `ProofError`, or any other error by its message.
pub data Failure : Type 0 where
  proof_error : ProofFailureClass → Text → Failure
  thrown : Text → Failure

-- `(e as Error).message`
abbrev pub message : Failure → Text
message (proof_error c m) = m
message (thrown m) = m

-- What the proof builder replies.
pub record BuilderReply : Type 0 where
  pub success : Bool
  pub bundle : Option ProofBundle
  pub error : Option Text

-- A receipt of the vault: each log by the name that `parseLog` finds, if it finds one.
pub record VaultReceipt : Type 0 where
  pub status : ℕ
  pub gas_used : ℕ
  pub log_names : List (Option Text)

pub data Call : Type 0 where
  wait_height : ℕ → Call
  ask_proof : Text → Call
  ask_index verify_single : ProofBundle → Call
  ask_fact_id : ProofBundle → ℕ → ℕ → Call
  ask_exists : Text → Call
  submit_transfer_fact : ProofBundle → ℕ → Call
  wait_receipt : Text → Call

-- The calls made, the last one first.
abbrev pub Calls : Type 0
Calls = List Call

pub record Services : Type 0 where
  pub attested : Calls → ℕ → Settled Text (Unit {0})
  pub proof : Calls → Text → Settled Text BuilderReply
  pub index : Calls → ProofBundle → Settled Text ℕ
  pub verdict : Calls → ProofBundle → Settled Text Bool
  pub fact_id : Calls → ProofBundle → ℕ → ℕ → Settled Text Text
  pub known : Calls → Text → Settled Text Bool
  pub submission : Calls → ProofBundle → ℕ → Settled Text Text
  pub receipt : Calls → Text → Settled Text (Option VaultReceipt)
  pub elapsed : Calls → ℕ

pub record Worker : Type 0 where
  pub db : Db
  pub metrics : Metrics
  pub calls : Calls

abbrev pub as_thrown : {A : Type 0} → Settled Text A → Settled Failure A
as_thrown (resolved a) = resolved a
as_thrown (rejected m) = rejected (thrown m)

-- One call: it is recorded, and answered from the calls before it.
abbrev pub call : {A : Type 0} → Call → (Calls → Settled Text A) → Exec Failure Worker A
call c answer w = (as_thrown (answer w.calls), record w { calls = c ∷ w.calls })

-- A statement on the database.
abbrev pub store : {A : Type 0} → Exec Text Db A → Exec Failure Worker A
store statement w = let (r, db') = statement w.db in (as_thrown r, record w { db = db' })

abbrev pub count : Text → List (Text × Text) → Exec Failure Worker (Unit {0})
count name labels = modify (λ w. record w { metrics = increment name labels 1 w.metrics })

abbrev pub measure : Text → ℕ → Exec Failure Worker (Unit {0})
measure name value = modify (λ w. record w { metrics = observe name value w.metrics })
