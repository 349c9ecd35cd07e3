-- ===== src/Coverage/Bindings.antt =====
-- The window of the bindings.
use clearbook.Prelude.{ℕ, ◌-◌, ◌≡◌, true, List, [], ◌∷◌, arith, refl, if◌then◌else◌, ltb}
use clearbook.Async.{resolved}
use clearbook.Ranges.{Span, spans}
use clearbook.Ranges.Cover.{in_span, collect, collect-spans}
use clearbook.Coverage.{
  BoundTreasury, Sources, all_spans, bound_treasuries, binding_lookback_blocks,
}

module _ (sources : Sources) (chain : ℕ → ℕ → List BoundTreasury)
    (answers : (id : ℕ) (span : Span)
      → sources.bindings id span ≡ resolved (in_span (chain id) span.first span.last)) where
  all_spans-collect :
      (id : ℕ) (l : List Span) → all_spans (sources.bindings id) l ≡ resolved (collect (chain id) l)
  all_spans-collect id [] = refl
  all_spans-collect id (span ∷ l) = rw (answers id span, all_spans-collect id l)

  -- Where a log query brings back the bindings that stand in its blocks, in order, the treasuries of an
  -- originator are those bound in the last 60,000 blocks up to the head, in order and each once.
  bound_treasuries-window :
      (originator_id cc_head : ℕ)
      → bound_treasuries sources true originator_id cc_head
        ≡ resolved (in_span (chain originator_id) (cc_head - binding_lookback_blocks) cc_head)
  unfolding bound_treasuries
  bound_treasuries-window originator_id cc_head =
      let from : (if ltb binding_lookback_blocks cc_head
            then cc_head - binding_lookback_blocks
            else 0)
          ≡ cc_head - binding_lookback_blocks =
        ground arith in
      rw (
        from,
        all_spans-collect originator_id (spans 10000 (cc_head - binding_lookback_blocks) cc_head),
        collect-spans (chain originator_id) 10000 (cc_head - binding_lookback_blocks) cc_head
            (omega arith) (omega arith),
      )
