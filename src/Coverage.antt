-- ===== src/Coverage.antt =====
-- Activity coverage (frontend/lib/coverage.ts): the treasuries that an originator has bound, and the
-- share of their outgoing transfers that claims cite. The source chain and the vault answer as they
-- stand during the measurement, or throw.
pub mod Bindings
pub mod Classes
pub mod Counts
pub mod Exact
use clearbook.Prelude.{
  ℕ, zero, suc, ◌+◌, ◌-◌, Bool, true, false, not, Option, none, some, List, [], ◌∷◌, ◌++◌, map, ltb,
  ◌==◌, if◌then◌else◌, length,
}
use clearbook.Text.{Text, to_lower_case}
use clearbook.Text.Assoc.{Assoc, TextSet, lookup, insert, has}
use clearbook.Async.{Settled, resolved, rejected, Exec, pure, read, modify, ◌>>=◌, ◌>>◌, for_each}
use clearbook.Ranges.{Span, spans}

abbrev pub binding_lookback_blocks : ℕ
binding_lookback_blocks = 60000

abbrev pub cc_scan_chunk : ℕ
cc_scan_chunk = 10000

abbrev pub source_chunk : ℕ
source_chunk = 5000

pub record CoverageScope : Type 0 where
  pub chain_key : ℕ
  pub tokens : List Text
  pub from_block : ℕ
  pub to_block : ℕ

pub record BoundTreasury : Type 0 where
  pub address : Text
  pub bound_at : ℕ

-- A log of `getLogs`, whose index counts from the start of its block.
pub record TransferLog : Type 0 where
  pub transaction_hash : Text
  pub block_number : ℕ
  pub transaction_index : ℕ
  pub log_index : ℕ

-- The receipt of a transaction, with the block-wide indices of its logs.
pub record SourceReceipt : Type 0 where
  pub succeeded : Bool
  pub log_indices : List ℕ

-- `vault` is `none` when no vault is configured.
pub record Sources : Type 0 where
  pub bindings : ℕ → Span → Settled Text (List BoundTreasury)
  pub transfers : Text → Text → Span → Settled Text (List TransferLog)
  pub receipt_of : Text → Settled Text SourceReceipt
  pub vault : Option (Text → Settled Text Bool)
  pub identity : ℕ → ℕ → ℕ → ℕ → Text

-- The local variables of `measureCoverage`.
pub record Tally : Type 0 where
  pub qualifying : ℕ
  pub committed : ℕ
  pub verified_not_committed : ℕ
  pub unverified : ℕ
  pub reverted_skipped : ℕ
  pub receipt_cache : Assoc (Option (List ℕ))

pub record Coverage : Type 0 where
  pub originator_id : ℕ
  pub treasuries : List BoundTreasury
  pub scope : CoverageScope
  pub qualifying : ℕ
  pub committed : ℕ
  pub verified_not_committed : ℕ
  pub unverified : ℕ
  pub reverted_skipped : ℕ

abbrev pub Measure : Type 0 → Type 0
Measure = Exec Text Tally

abbrev pub ask : {S A : Type 0} → Settled Text A → Exec Text S A
ask answer s = (answer, s)

-- `mapLimit` keeps the order of the spans, whatever order the queries end in.
abbrev pub all_spans :
    {A : Type 0} → (Span → Settled Text (List A)) → List Span → Settled Text (List A)
all_spans query [] = resolved []
all_spans query (span ∷ rest) = joined (query span) (all_spans query rest)
  where
    joined : {A : Type 0} → Settled Text (List A) → Settled Text (List A) → Settled Text (List A)
    joined (rejected e) more = rejected e
    joined (resolved batch) (rejected e) = rejected e
    joined (resolved batch) (resolved more) = resolved (batch ++ more)

-- `deployed` is whether `contracts.clearbook` is configured.
unfoldable pub bound_treasuries : Sources → Bool → ℕ → ℕ → Settled Text (List BoundTreasury)
bound_treasuries sources deployed originator_id cc_head =
    if not deployed
    then resolved []
    else let from =
        if ltb binding_lookback_blocks cc_head then cc_head - binding_lookback_blocks else 0 in
      all_spans (sources.bindings originator_id) (spans cc_scan_chunk from cc_head)

-- `indices.indexOf(index)`
unfoldable pub index_of : ℕ → List ℕ → Option ℕ
index_of n [] = none
index_of n (x ∷ xs) = if x == n then some 0 else next (index_of n xs)
  where
    next : Option ℕ → Option ℕ
    next none = none
    next (some i) = some (suc i)

abbrev pub skip_reverted : Tally → Tally
skip_reverted t = record t { reverted_skipped = t.reverted_skipped + 1 }

abbrev pub qualify : Tally → Tally
qualify t = record t { qualifying = t.qualifying + 1 }

abbrev pub commit : Tally → Tally
commit t = record t { committed = t.committed + 1 }

abbrev pub verify_only : Tally → Tally
verify_only t = record t { verified_not_committed = t.verified_not_committed + 1 }

abbrev pub leave_unverified : Tally → Tally
leave_unverified t = record t { unverified = t.unverified + 1 }

-- `receipt.status === 'success' ? receipt.logs.map(...) : null`
abbrev pub indices_of : SourceReceipt → Option (List ℕ)
indices_of receipt = if receipt.succeeded then some receipt.log_indices else none

module _ (sources : Sources) (scope : CoverageScope) (committed_fact_ids : TextSet) where
  -- One receipt fetch per transaction: `none` of the cache is its `undefined`.
  abbrev pub fetch_indices : Text → Option (Option (List ℕ)) → Measure (Option (List ℕ))
  fetch_indices hash (some indices) = pure indices
  fetch_indices hash none = do
    receipt ← ask (sources.receipt_of hash)
    modify (λ t. record t { receipt_cache = insert hash (indices_of receipt) t.receipt_cache })
    pure (indices_of receipt)

  -- Committed, in the vault, or neither.
  abbrev pub ask_vault : Text → Option (Text → Settled Text Bool) → Measure (Unit {0})
  ask_vault fact_id none = modify leave_unverified
  ask_vault fact_id (some vault_exists) = do
    found ← ask (vault_exists fact_id)
    if found then modify verify_only else modify leave_unverified

  abbrev pub classify_fact : Text → Measure (Unit {0})
  classify_fact fact_id =
      if has (to_lower_case fact_id) committed_fact_ids
      then modify commit
      else ask_vault fact_id sources.vault

  abbrev pub count_located : TransferLog → Option ℕ → Measure (Unit {0})
  count_located entry none = pure tt
  count_located entry (some local_index) =
      modify qualify
      >> classify_fact
          (sources.identity scope.chain_key entry.block_number entry.transaction_index local_index)

  abbrev pub count_entry : TransferLog → Option (List ℕ) → Measure (Unit {0})
  count_entry entry none = modify skip_reverted
  count_entry entry (some indices) = count_located entry (index_of entry.log_index indices)

  unfoldable pub measure_entry : TransferLog → Measure (Unit {0})
  unfolding index_of
  measure_entry entry = do
    cached ← read (λ t. lookup entry.transaction_hash t.receipt_cache)
    indices ← fetch_indices entry.transaction_hash cached
    count_entry entry indices

  unfoldable pub measure_span : BoundTreasury → Text → Span → Measure (Unit {0})
  unfolding measure_entry
  measure_span treasury token span = do
    logs ← ask (sources.transfers token treasury.address span)
    for_each measure_entry logs

  unfoldable pub measure_token : BoundTreasury → Text → Measure (Unit {0})
  unfolding measure_span
  measure_token treasury token =
      for_each (measure_span treasury token) (spans source_chunk scope.from_block scope.to_block)

  unfoldable pub measure_treasury : BoundTreasury → Measure (Unit {0})
  unfolding measure_token
  measure_treasury treasury = for_each (measure_token treasury) scope.tokens

  abbrev pub nothing_counted : Tally
  nothing_counted = record {
    qualifying = 0;
    committed = 0;
    verified_not_committed = 0;
    unverified = 0;
    reverted_skipped = 0;
    receipt_cache = [];
  }

  abbrev pub coverage_of : ℕ → List BoundTreasury → Tally → Coverage
  coverage_of originator_id treasuries t = record {
    originator_id = originator_id;
    treasuries = treasuries;
    scope = scope;
    qualifying = t.qualifying;
    committed = t.committed;
    verified_not_committed = t.verified_not_committed;
    unverified = t.unverified;
    reverted_skipped = t.reverted_skipped;
  }

  abbrev pub report :
      ℕ → List BoundTreasury → Settled Text (Unit {0}) → Tally → Settled Text Coverage
  report originator_id treasuries (rejected e) t = rejected e
  report originator_id treasuries (resolved u) t = resolved (coverage_of originator_id treasuries t)

  unfoldable pub measure_coverage : ℕ → List BoundTreasury → Settled Text Coverage
  unfolding measure_treasury
  measure_coverage originator_id treasuries =
      let (r, t) = for_each measure_treasury treasuries nothing_counted in
      report originator_id treasuries r t

pub data CoverageState : Type 0 where
  no_treasury no_activity measured : CoverageState

abbrev pub state_by : List BoundTreasury → ℕ → CoverageState
state_by [] n = no_treasury
state_by (t ∷ ts) zero = no_activity
state_by (t ∷ ts) (suc n) = measured

unfoldable pub coverage_state : Coverage → CoverageState
coverage_state c = state_by c.treasuries c.qualifying
