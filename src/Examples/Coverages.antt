-- ===== src/Examples/Coverages.antt =====
-- One treasury with two transfers: one that a claim cites, and one of a transaction that reverted.
use clearbook.Prelude.{arith, ℕ, ◌+◌, ◌≡◌, ◌==◌, refl, true, some, List, [], ◌∷◌, if◌then◌else◌}
use clearbook.Text.{Text, codes, text_eq, to_lower_case, lower_unit}
use clearbook.Text.Assoc.{has, lookup, insert}
use clearbook.Async.{resolved}
use clearbook.Ranges.{spans, spans_from, span_end}
use clearbook.Ranges.Cover.{in_span}
use clearbook.Coverage.{
  Sources, CoverageScope, BoundTreasury, TransferLog, SourceReceipt, Coverage, measure_coverage,
  measure_treasury, measure_token, measure_span, measure_entry, index_of,
}
use clearbook.Coverage.Exact.{Counted, classes_of, measure_coverage-Counted}

abbrev treasury : BoundTreasury
treasury = record { address = codes "0xcc"; bound_at = 40 }

abbrev bound_in : ℕ → ℕ → List BoundTreasury
bound_in originator_id block = if block == 40 then treasury ∷ [] else []

abbrev cited : TransferLog
cited = record {
  transaction_hash = codes "0x01";
  block_number = 7;
  transaction_index = 0;
  log_index = 12;
}

abbrev reverted_one : TransferLog
reverted_one = record {
  transaction_hash = codes "0x02";
  block_number = 9;
  transaction_index = 1;
  log_index = 3;
}

abbrev receipt_of : Text → SourceReceipt
receipt_of hash = record { succeeded = text_eq hash (codes "0x01"); log_indices = 11 ∷ 12 ∷ [] }

abbrev transfers_in : Text → Text → ℕ → List TransferLog
transfers_in token address block =
    if block == 7 then cited ∷ [] else if block == 9 then reverted_one ∷ [] else []

abbrev sources : Sources
sources = record {
  bindings = λ id span. resolved (in_span (bound_in id) span.first span.last);
  transfers =
      λ token address span. resolved (in_span (transfers_in token address) span.first span.last);
  receipt_of = λ hash. resolved (receipt_of hash);
  vault = some (λ id. resolved true);
  identity = λ key height index local_index. codes "0xF1";
}

abbrev scope : CoverageScope
scope = record { chain_key = 1; tokens = codes "0xaa" ∷ []; from_block = 0; to_block = 10 }

measure_coverage-Counted_example :
    (c : Coverage) × (measure_coverage sources scope (codes "0xf1" ∷ []) 7 (treasury ∷ [])
      ≡ resolved c)
    × Counted
        (classes_of sources scope
          (codes "0xf1" ∷ [])
          receipt_of
          (λ id. true)
          transfers_in
          (λ token address span. refl)
          (λ hash. refl)
          (λ id. refl)
          (treasury ∷ []))
        c
    × (c.qualifying ≡ c.committed + c.verified_not_committed + c.unverified)
measure_coverage-Counted_example =
    measure_coverage-Counted sources scope (codes "0xf1" ∷ []) receipt_of (λ id. true) transfers_in
      (λ token address span. refl) (λ hash. refl) (λ id. refl) 7 (treasury ∷ []) (omega arith)

-- The cited transfer is the only one that qualifies.
counted_once :
    measure_coverage sources scope (codes "0xf1" ∷ []) 7 (treasury ∷ [])
    ≡ resolved (record {
      originator_id = 7;
      treasuries = treasury ∷ [];
      scope = scope;
      qualifying = 1;
      committed = 1;
      verified_not_committed = 0;
      unverified = 0;
      reverted_skipped = 1;
    })
unfolding measure_coverage measure_treasury measure_token measure_span measure_entry index_of spans
    spans_from span_end has to_lower_case lower_unit text_eq lookup insert
counted_once = refl
