-- ===== src/Reads/Scans.antt =====
-- The chunked log scans of `useVaultFacts` and `useBreachEvidence` (frontend/lib/hooks.ts), which run on
-- `mapLimit`. What `getLogs` gives for a range is a parameter.
pub mod Window
use clearbook.Prelude.{
  ℕ, zero, suc, ◌+◌, ◌-◌, Bool, true, false, Option, none, some, or_else, List, [], ◌∷◌, ◌++◌, map,
  ltb, if◌then◌else◌, length,
}
use clearbook.Text.{Text}
use clearbook.Async.{Settled, resolved, rejected}
use clearbook.Ranges.{Span, spans}
use clearbook.Reads.Pool.{Pool, Reach}

-- VAULT_LOOKBACK_BLOCKS
abbrev pub vault_lookback_blocks : ℕ
vault_lookback_blocks = 60000

-- VAULT_SCAN_CHUNK and BREACH_SCAN_CHUNK
abbrev pub scan_chunk : ℕ
scan_chunk = 10000

-- VAULT_SCAN_CONCURRENCY and BREACH_SCAN_CONCURRENCY
abbrev pub scan_concurrency : ℕ
scan_concurrency = 3

pub record BreachEvidence : Type 0 where
  pub funding_fact_id : Text
  pub challenger : Text
  pub tx_hash : Text
  pub block : ℕ

-- `batches.flat()`: the places from `i` on, `n` of them; a place that was not written is passed over.
abbrev pub flat_from : {A : Type 0} → (ℕ → Option (List A)) → ℕ → ℕ → List A
flat_from out i zero = []
flat_from out i (suc n) = or_else (out i) [] ++ flat_from out (i + 1) n

-- The ranges of the two scans, at the block that the chain is at.
unfoldable pub vault_spans : ℕ → List Span
vault_spans latest =
    let from = if ltb vault_lookback_blocks latest then latest - vault_lookback_blocks else 0 in
    spans scan_chunk from latest

unfoldable pub breach_spans : ℕ → ℕ → List Span
breach_spans from_block latest = spans scan_chunk from_block latest

-- What `mapLimit` comes to once no work is in flight.
abbrev pub outcome_of : {E A : Type 0} → ℕ → Option E → (ℕ → Option (List A)) → Settled E (List A)
outcome_of size (some e) out = rejected e
outcome_of size none out = resolved (flat_from out 0 size)

unfoldable pub logs_of : {E A : Type 0} → List Span → Pool E (List A) → Settled E (List A)
logs_of ranges p = outcome_of (length ranges) p.failure p.out

-- `logs[logs.length - 1]`
abbrev pub last_of : {A : Type 0} → List A → Option A
last_of [] = none
last_of (x ∷ []) = some x
last_of (x ∷ y ∷ rest) = last_of (y ∷ rest)

-- A `CovenantBreached` log, in the fields that are read of it.
pub record BreachLog : Type 0 where
  pub funding_fact_id : Text
  pub challenger : Text
  pub transaction_hash : Text
  pub block_number : ℕ

-- The evidence of a breach is the last log, if there is one.
unfoldable pub breach_of : List BreachLog → Option BreachEvidence
breach_of logs = elim (last_of logs) [
  | none ↦ none
  | some last ↦ some (record {
    funding_fact_id = last.funding_fact_id;
    challenger = last.challenger;
    tx_hash = last.transaction_hash;
    block = last.block_number;
  })
]
