-- ===== src/Projection/Whole.antt =====
-- The chunks of a `sync` make no difference: the model is that of one scan over the whole range.
use clearbook.Prelude.{
  ℕ, ◌+◌, ◌≤◌, ◌≡◌, refl, ap, ◌∙◌, false, Option, none, some, or_else, List, [], ◌∷◌, ◌++◌, arith,
  ltb,
}
use clearbook.Text.{Text}
use clearbook.Async.{resolved, for_each}
use clearbook.Ranges.{Span, spans}
use clearbook.Ranges.Cover.{in_span, collect, collect-spans, Tiles, spans-Tiles}
use clearbook.Projection.Upsert.{upsert_all, upsert_all-append}
use clearbook.Projection.{
  FactRecord, ReadModel, Feed, Emitted, FactStored, TreasuryBound, CovenantBreached, BountyPaid,
  pushed, each_parsed, fact_entry, bound_entry, project, scan_range, scan_window_of, sync,
}

pushed-append :
    {A B : Type 0} (f : A → B) (o : Option A) (l k m : List B)
    → m ≡ l ++ k
    → pushed f o m ≡ pushed f o l ++ k
pushed-append f none l k m e = e
pushed-append f (some a) l k m e = cc

each_parsed-append :
    {A B : Type 0} (f : Emitted A → A → B) (l k : List (Emitted A))
    → each_parsed f (l ++ k) ≡ each_parsed f l ++ each_parsed f k
each_parsed-append f [] k = refl
each_parsed-append f (e ∷ l) k =
    pushed-append (f e) e.parsed (each_parsed f l) (each_parsed f k) _ (each_parsed-append f l k)

module _ (feed : Feed) (facts : ℕ → List (Emitted FactStored))
    (bounds : ℕ → List (Emitted TreasuryBound)) (breaches : Span → List (Emitted CovenantBreached))
    (bounties : Span → List (Emitted BountyPaid))
    (answers : (span : Span)
      → feed.range_logs span
        ≡ resolved (record {
          fact_logs = in_span facts span.first span.last;
          bound_logs = in_span bounds span.first span.last;
          breach_logs = breaches span;
          bounty_logs = bounties span;
        })) where
  -- The model after one range.
  abbrev after_range : Span → ReadModel → ReadModel
  after_range span m =
      record (project
        (record {
          fact_logs = in_span facts span.first span.last;
          bound_logs = in_span bounds span.first span.last;
          breach_logs = breaches span;
          bounty_logs = bounties span;
        })
        m) { last_scanned_block = span.last }

  window-range :
      (span : Span) (m : ReadModel) → scan_window_of feed span m ≡ (resolved tt, after_range span m)
  unfolding scan_range
  window-range span m = rw (answers span)

  loop-whole :
      (l : List Span) (m : ReadModel)
      → ((for_each (scan_window_of feed) l m).0 ≡ resolved tt)
        × ((for_each (scan_window_of feed) l m).1.facts
            ≡ upsert_all (λ p. p.0) (each_parsed fact_entry (collect facts l)) m.facts)
        × ((for_each (scan_window_of feed) l m).1.bound_treasuries
            ≡ upsert_all (λ p. p.0) (each_parsed bound_entry (collect bounds l)) m.bound_treasuries)
  unfolding upsert_all scan_range project
  loop-whole [] m = (refl, refl, refl)
  loop-whole (span ∷ l) m =
      rw
        (
          answers span,
          each_parsed-append fact_entry (in_span facts span.first span.last) (collect facts l),
          each_parsed-append bound_entry (in_span bounds span.first span.last) (collect bounds l),
          upsert_all-append (λ (p : Text × FactRecord). p.0)
              (each_parsed fact_entry (in_span facts span.first span.last))
              (each_parsed fact_entry (collect facts l)) m.facts,
          upsert_all-append (λ (p : Text × Text). p.0)
              (each_parsed bound_entry (in_span bounds span.first span.last))
              (each_parsed bound_entry (collect bounds l)) m.bound_treasuries,
        )
        (loop-whole l (after_range span m))

  loop-last :
      (chunk start last : ℕ) (l : List Span) (m : ReadModel)
      → Tiles chunk start last l
      → start ≤ last
      → (for_each (scan_window_of feed) l m).1.last_scanned_block ≡ last
  unfolding scan_range
  loop-last chunk start last [] m t b = absurd (omega (arith, t))
  loop-last chunk start last (span ∷ []) m t b = rw (answers span) (omega (arith, t.2, t.4))
  loop-last chunk start last (span ∷ span' ∷ l) m t b = rw (window-range span m) (
      loop-last chunk (span.last + 1) last (span' ∷ l) (after_range span m) t.4
        (omega (arith, t.4.1, t.4.2)))

  -- Where the node answers, and the queries of a range bring back the facts and the bindings that stand
  -- in its blocks, in order, a `sync` from a block up to the head returns; the facts and the treasuries
  -- are then those of all these blocks written once in their order, whatever the chunks were, and the
  -- last scanned block is the head.
  pub sync-whole :
      (from_block : Option ℕ) (head : ℕ) (m : ReadModel)
      → feed.head ≡ resolved head
      → or_else from_block m.last_scanned_block ≤ head
      → ((sync feed from_block m).0 ≡ resolved tt)
        × ((sync feed from_block m).1.facts
            ≡ upsert_all
                (λ p. p.0)
                (each_parsed fact_entry
                  (in_span facts (or_else from_block m.last_scanned_block) head))
                m.facts)
        × ((sync feed from_block m).1.bound_treasuries
            ≡ upsert_all
                (λ p. p.0)
                (each_parsed bound_entry
                  (in_span bounds (or_else from_block m.last_scanned_block) head))
                m.bound_treasuries)
        × ((sync feed from_block m).1.last_scanned_block ≡ head)
  unfolding sync
  sync-whole from_block head m h b =
      let start = or_else from_block m.last_scanned_block in
      let behind : ltb head start ≡ false = ground arith in
      let l = spans 2000 start head in
      let whole = loop-whole l m in
      rw (h, behind)
        (
          whole.0,
          whole.1
              ∙ ap (λ x. upsert_all (λ p. p.0) (each_parsed fact_entry x) m.facts)
                  (collect-spans facts 2000 start head (omega arith) (omega arith)),
          whole.2
              ∙ ap (λ x. upsert_all (λ p. p.0) (each_parsed bound_entry x) m.bound_treasuries)
                  (collect-spans bounds 2000 start head (omega arith) (omega arith)),
          loop-last 2000 start head l m (spans-Tiles 2000 start head (omega arith)) b,
        )
