-- ===== src/Coverage/Exact.antt =====
-- A whole measurement: its counts are those of the classes of the logs in its window.
use mathlib.Core.Path.{subst}
use clearbook.Prelude.{Bool, ℕ, ◌+◌, ◌≡◌, ◌≤◌, refl, ap, ◌∙◌, List, [], ◌∷◌, arith}
use clearbook.Text.{Text}
use clearbook.Text.Assoc.{TextSet, lookup}
use clearbook.Async.{Settled, resolved, for_each}
use clearbook.Ranges.{Span, spans}
use clearbook.Ranges.Cover.{in_span, collect-spans}
use clearbook.Coverage.{
  CoverageScope, BoundTreasury, TransferLog, SourceReceipt, Sources, Tally, Coverage, measure_entry,
  measure_span, measure_token, measure_treasury, nothing_counted, measure_coverage, source_chunk,
}
use clearbook.Coverage.Classes.{
  Class, is_qualifying, is_committed, is_vaulted, is_unvaulted, is_reverted, how_many, flat,
  flat-collect, VaultHolds,
}
use clearbook.Coverage.Counts.{class_of, IsTrue, Adds, Adds-for_each, looked_up-Adds}

-- Every qualifying log is committed, vaulted or neither.
how_many-qualifying :
    (ks : List Class)
    → how_many is_qualifying ks
      ≡ how_many is_committed ks + how_many is_vaulted ks + how_many is_unvaulted ks
how_many-qualifying [] = omega arith
how_many-qualifying (k ∷ ks) = ground (arith, how_many-qualifying ks)

-- The counts of a measurement, as numbers of classes.
abbrev pub Counted : List Class → Coverage → Type 0
Counted ks c =
    (c.qualifying ≡ how_many is_qualifying ks)
    × (c.committed ≡ how_many is_committed ks)
    × (c.verified_not_committed ≡ how_many is_vaulted ks)
    × (c.unverified ≡ how_many is_unvaulted ks)
    × (c.reverted_skipped ≡ how_many is_reverted ks)

module _ (sources : Sources) (scope : CoverageScope) (committed_fact_ids : TextSet)
    (receipts : Text → SourceReceipt) (holds : Text → Bool)
    (chain : Text → Text → ℕ → List TransferLog)
    (log_answers : (token address : Text) (span : Span)
      → sources.transfers token address span
        ≡ resolved (in_span (chain token address) span.first span.last))
    (receipt_answers : (hash : Text) → sources.receipt_of hash ≡ resolved (receipts hash))
    (vault_answers : VaultHolds sources.vault holds) where
  abbrev classed : TransferLog → List Class
  classed entry = class_of sources scope committed_fact_ids receipts holds entry ∷ []

  abbrev Counts : List Class → (Tally → Settled Text (Unit {0}) × Tally) → Type 0
  Counts ks m = Adds sources scope committed_fact_ids receipts holds ks m

  -- The classes of the logs of the window, for each treasury and each token, block by block.
  abbrev pub classes_of : List BoundTreasury → List Class
  classes_of = flat (λ treasury.
      flat
        (λ token.
          flat classed (in_span (chain token treasury.address) scope.from_block scope.to_block))
        scope.tokens)

  Counts-entry :
      (entry : TransferLog)
      → Counts (classed entry) (measure_entry sources scope committed_fact_ids entry)
  unfolding measure_entry
  Counts-entry entry = record {
    adds = λ t h.
        looked_up-Adds sources scope committed_fact_ids receipts holds chain log_answers
          receipt_answers vault_answers entry (lookup entry.transaction_hash t.receipt_cache) t refl
          h;
  }

  Counts-span :
      (treasury : BoundTreasury) (token : Text) (span : Span)
      → Counts
          (flat classed (in_span (chain token treasury.address) span.first span.last))
          (measure_span sources scope committed_fact_ids treasury token span)
  unfolding measure_span
  Counts-span treasury token span = record {
    adds = λ t h. rw (log_answers token treasury.address span) (
        (Adds-for_each sources scope committed_fact_ids receipts holds classed
            (measure_entry sources scope committed_fact_ids)
            (in_span (chain token treasury.address) span.first span.last) Counts-entry).adds
          t h);
  }

  Counts-token :
      (treasury : BoundTreasury) (token : Text)
      → scope.from_block ≤ scope.to_block + 1
      → Counts
          (flat classed (in_span (chain token treasury.address) scope.from_block scope.to_block))
          (measure_token sources scope committed_fact_ids treasury token)
  unfolding measure_token
  Counts-token treasury token window =
      let logs = chain token treasury.address in
      let ranges = spans source_chunk scope.from_block scope.to_block in
      subst (λ ks. Counts ks (measure_token sources scope committed_fact_ids treasury token))
        (flat-collect classed logs ranges
          ∙ ap (flat classed) (
              collect-spans logs source_chunk scope.from_block scope.to_block (omega arith) window))
        (Adds-for_each sources scope committed_fact_ids receipts holds
          (λ span. flat classed (in_span logs span.first span.last))
          (measure_span sources scope committed_fact_ids treasury token) ranges
          (Counts-span treasury token))

  Counts-treasuries :
      (treasuries : List BoundTreasury)
      → scope.from_block ≤ scope.to_block + 1
      → Counts
          (classes_of treasuries)
          (for_each (measure_treasury sources scope committed_fact_ids) treasuries)
  unfolding measure_treasury
  Counts-treasuries treasuries window =
      Adds-for_each sources scope committed_fact_ids receipts holds _ _ treasuries (λ treasury.
        Adds-for_each sources scope committed_fact_ids receipts holds _ _ scope.tokens
          (λ token. Counts-token treasury token window))

  empty-IsTrue :
      IsTrue sources scope committed_fact_ids receipts holds
        (nothing_counted sources scope committed_fact_ids)
  unfolding lookup
  empty-IsTrue hash o e = cc

  -- Where a log query brings back the transfers that stand in its blocks, in order, and where the
  -- receipts and the vault answer: the measurement returns, and each of its counts is the number of the
  -- logs of that class in the window, taken for each treasury and each token of the scope; a token that
  -- the scope has twice is counted twice. The denominator is the sum of its three counts.
  pub measure_coverage-Counted :
      (originator_id : ℕ) (treasuries : List BoundTreasury)
      → scope.from_block ≤ scope.to_block + 1
      → (c : Coverage) × (measure_coverage sources scope committed_fact_ids originator_id treasuries
          ≡ resolved c)
        × Counted (classes_of treasuries) c
        × (c.qualifying ≡ c.committed + c.verified_not_committed + c.unverified)
  unfolding measure_coverage
  measure_coverage-Counted originator_id treasuries window =
      let start = nothing_counted sources scope committed_fact_ids in
      let (returns, a) = (Counts-treasuries treasuries window).adds start empty-IsTrue in
      let ks = classes_of treasuries in
      rw returns (
        _,
        refl,
        (
          omega (arith, a.qualifying),
          omega (arith, a.committed),
          omega (arith, a.vaulted),
          omega (arith, a.unvaulted),
          omega (arith, a.reverted),
        ),
        omega (arith, a.qualifying, a.committed, a.vaulted, a.unvaulted, how_many-qualifying ks),
      )
