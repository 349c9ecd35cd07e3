-- ===== src/Challenger/Sweep/Results.antt =====
-- What a sweep reads: the evidence of the lookback window, and the open claims.
use clearbook.Prelude.{
  ℕ, zero, suc, ◌+◌, ◌-◌, ◌≡◌, refl, Bool, true, false, Option, none, some, List, [], ◌∷◌, map,
  arith, ltb, leb, ◌==◌, ◌&&◌, if◌then◌else◌, keep, Bool-cases, inl, inr,
}
use mathlib.Core.Option
use clearbook.Text.{Text}
use clearbook.Async.{Settled, resolved, rejected, pure, after}
use clearbook.Ranges.{Span, spans}
use clearbook.Ranges.Cover.{in_span, collect, collect-spans}
use clearbook.Challenger.Filter.{Fact, OpenClaim}
use clearbook.Challenger.Node.{
  Node, Challenger, History, ChainLoan, ChainOriginator, loans, originators, next_loan_id,
  query_facts,
}
use clearbook.Challenger.Sweep.{
  pushed, open_claims_from, open_claims, facts_in, recent_facts, fact_lookback_blocks,
  repayment_claimed,
}

module _ (node : Node) where
  module _ (chain : ℕ → List Fact)
      (answers : (h : History) (a b : ℕ) → node.facts h a b ≡ resolved (in_span chain a b)) where
    facts_in-collect :
        (l : List Span) (s : Challenger) → (facts_in node l s).0 ≡ resolved (collect chain l)
    unfolding facts_in
    facts_in-collect [] s = refl
    facts_in-collect (x ∷ l) s = rw (
      answers s.history x.first x.last,
      facts_in-collect l (record s { history = query_facts x.first x.last ∷ s.history }),
    )

    -- Where a log query brings back what stands in its blocks, in order, `recentFacts` brings back the
    -- facts of the last 20,000 blocks up to the head, in order and each once.
    pub recent_facts-window :
        (head : ℕ) (s : Challenger)
        → (recent_facts node head s).0 ≡ resolved (in_span chain (head - fact_lookback_blocks) head)
    unfolding recent_facts
    recent_facts-window head s =
        let from : (if ltb fact_lookback_blocks head then head - fact_lookback_blocks else 0)
            ≡ head - fact_lookback_blocks =
          ground arith in
        rw (
          from,
          facts_in-collect (spans 5000 (head - fact_lookback_blocks) head) s,
          collect-spans chain 5000 (head - fact_lookback_blocks) head (omega arith) (omega arith),
        )

  -- The book as it stands during the pass.
  module _ (book : ℕ → ChainLoan) (registry : ℕ → ChainOriginator)
      (loans_read : (h : History) (id : ℕ) → node.loan h id ≡ resolved (book id))
      (originators_read : (h : History) (id : ℕ)
        → node.originator h id ≡ resolved (registry id)) where
    -- The status and the window, as `isChallengeable` of frontend/lib/protocol.ts tests them.
    abbrev pub is_open : ℕ → ℕ → Bool
    is_open head id =
        let loan = book id in
        loan.status == repayment_claimed
        && leb head (loan.claim_block + (registry loan.originator_id).challenge_window)

    abbrev pub ids_from : ℕ → ℕ → List ℕ
    ids_from id zero = []
    ids_from id (suc left) = id ∷ ids_from (id + 1) left

    abbrev pub ids_of : Settled Text (List OpenClaim) → Option (List ℕ)
    ids_of (resolved claims) = some (map (λ c. c.loan_id) claims)
    ids_of (rejected e) = none

    pushed-ids :
        (c : Option OpenClaim) (r : Settled Text (List OpenClaim)) (t : Challenger) (ids : List ℕ)
        → ids_of r ≡ some ids
        → ids_of (after {S = Challenger} (λ rest. pure (pushed c rest)) r t).0
          ≡ some (pushed (Option.map (λ (d : OpenClaim). d.loan_id) c) ids)
    pushed-ids c (rejected e) t ids h = cc
    pushed-ids none (resolved l) t ids h = h
    pushed-ids (some c) (resolved l) t ids h = cc

    open_claims_from-ids :
        (head id left : ℕ) (s : Challenger)
        → ids_of (open_claims_from node head id left s).0
          ≡ some (keep (is_open head) (ids_from id left))
    unfolding open_claims_from
    open_claims_from-ids head id zero s = refl
    open_claims_from-ids head id (suc left) s =
        let loan = book id in
        let orig = registry loan.originator_id in
        let asked : Challenger = record s { history = loans id ∷ s.history } in
        let asked_twice : Challenger = record s {
          history = originators loan.originator_id ∷ loans id ∷ s.history;
        } in
        rw (loans_read s.history id) (elim (Bool-cases (loan.status == repayment_claimed)) [
          | inr other ↦ rw other (
              pushed-ids none (open_claims_from node head (id + 1) left asked).0
                (open_claims_from node head (id + 1) left asked).1 _
                (open_claims_from-ids head (id + 1) left asked))
          | inl claimed ↦
              rw (claimed, originators_read asked.history loan.originator_id)
                (elim (Bool-cases (ltb (loan.claim_block + orig.challenge_window) head)) [
                  | inl late ↦
                      let closed : leb head (loan.claim_block + orig.challenge_window) ≡ false =
                        ground arith in
                      rw (late, closed)
                        (pushed-ids none (open_claims_from node head (id + 1) left asked_twice).0
                          (open_claims_from node head (id + 1) left asked_twice).1 _
                          (open_claims_from-ids head (id + 1) left asked_twice))
                  | inr early ↦
                      let still : leb head (loan.claim_block + orig.challenge_window) ≡ true =
                        ground arith in
                      rw (early, still)
                        (pushed-ids (some _)
                          (open_claims_from node head (id + 1) left asked_twice).0
                          (open_claims_from node head (id + 1) left asked_twice).1 _
                          (open_claims_from-ids head (id + 1) left asked_twice))
                ])
        ])

    -- The claims that a pass acts on are those of the loans, from 1 up to the next identifier, whose
    -- repayment is claimed and whose window is open at the head, in order and each once.
    pub open_claims-ids :
        (head next : ℕ) (s : Challenger)
        → node.next_loan s.history ≡ resolved next
        → ids_of (open_claims node head s).0 ≡ some (keep (is_open head) (ids_from 1 (next - 1)))
    unfolding open_claims
    open_claims-ids head next s h =
        rw h
          (open_claims_from-ids head 1 (next - 1) (record s { history = next_loan_id ∷ s.history }))
