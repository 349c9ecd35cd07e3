-- ===== src/Challenger/Sweep/Safety.antt =====
-- What a sweep guarantees: the gate over the whole run, at most one confirmed challenge of a claim, and
-- the evidence that it reads.
use clearbook.Prelude.{ℕ, zero, suc, ◌+◌, Bool, Option, none, some, List, [], ◌∷◌}
use clearbook.Text.{Text}
use clearbook.Async.{Exec, pure, ◌>>=◌}
use clearbook.Async.Preserves.{
  Preserves, Preserves-bind, Preserves-pure, Preserves-if, preserves_rules,
}
use clearbook.Ranges.{Span}
use clearbook.Challenger.Filter.{Fact, OpenClaim}
use clearbook.Challenger.Node
use clearbook.Challenger.Node.{
  Node, Challenger, ChainLoan, get_block_number, next_loan_id, loans, originators, query_facts,
  get_fact, treasury_owner,
}
use clearbook.Challenger.Act.{Outcome, act}
use clearbook.Challenger.Act.Gate.{IsGated, act-IsGated}
use clearbook.Challenger.Act.Refusal.{is_confirmed}
use clearbook.Challenger.Sweep.{
  originator_of, claim_of, open_claims_from, open_claims, facts_in, recent_facts, owned_by,
  candidates_for, go_on, act_on, act_on_all, sweep,
}

module _ (node : Node) where
  abbrev AllGated : Challenger → Type 0
  AllGated s = IsGated node s.history

  -- Every call but a transaction leaves the gate as it is.
  Gated-originator : (id : ℕ) → Preserves AllGated (originator_of node id)
  Gated-originator id = record { kept = λ s h. h }

  Gated-loan : (id : ℕ) → Preserves AllGated (Node.call (loans id) (λ h. node.loan h id))
  Gated-loan id = record { kept = λ s h. h }

  Gated-next : Preserves AllGated (Node.call next_loan_id (λ h. node.next_loan h))
  Gated-next = record { kept = λ s h. h }

  Gated-head : Preserves AllGated (Node.call get_block_number (λ h. node.block_number h))
  Gated-head = record { kept = λ s h. h }

  Gated-query : (a b : ℕ) → Preserves AllGated (Node.call (query_facts a b) (λ h. node.facts h a b))
  Gated-query a b = record { kept = λ s h. h }

  Gated-fact : (id : Text) → Preserves AllGated (Node.call (get_fact id) (λ h. node.fact h id))
  Gated-fact id = record { kept = λ s h. h }

  Gated-owner : (a : Text) → Preserves AllGated (Node.call (treasury_owner a) (λ h. node.owner h a))
  Gated-owner a = record { kept = λ s h. h }

  ruleset gated_rules = (
    preserves_rules, Gated-originator, Gated-loan, Gated-next, Gated-head, Gated-query, Gated-fact,
    Gated-owner,
  )

  Gated-claim_of :
      (head id : ℕ) (loan : ChainLoan) → Preserves AllGated (claim_of node head id loan)
  Gated-claim_of head id loan = search gated_rules

  Gated-open_claims_from :
      (head id left : ℕ) → Preserves AllGated (open_claims_from node head id left)
  unfolding open_claims_from
  Gated-open_claims_from head id zero = search gated_rules
  Gated-open_claims_from head id (suc left) = Preserves-bind _ _ (Gated-loan id) (λ loan.
      Preserves-bind _ _ (Gated-claim_of head id loan) (λ claim.
        Preserves-bind _ _ (Gated-open_claims_from head (id + 1) left) (λ rest. Preserves-pure _)))

  Gated-open_claims : (head : ℕ) → Preserves AllGated (open_claims node head)
  unfolding open_claims
  Gated-open_claims head = search (gated_rules, Gated-open_claims_from)

  Gated-facts_in : (l : List Span) → Preserves AllGated (facts_in node l)
  unfolding facts_in
  Gated-facts_in [] = search gated_rules
  Gated-facts_in (s ∷ l) =
      Preserves-bind _ _ (Gated-query s.first s.last)
        (λ events. Preserves-bind _ _ (Gated-facts_in l) (λ more. Preserves-pure _))

  Gated-owned_by : (o : ℕ) (l : List Fact) → Preserves AllGated (owned_by node o l)
  unfolding owned_by
  Gated-owned_by o [] = search gated_rules
  Gated-owned_by o (f ∷ l) =
      Preserves-bind _ _ (Gated-owner f.from)
        (λ owner. Preserves-bind _ _ (Gated-owned_by o l) (λ more. Preserves-pure _))

  Gated-candidates_for :
      (claim : OpenClaim) (l : List Fact) → Preserves AllGated (candidates_for node claim l)
  unfolding candidates_for
  Gated-candidates_for claim l = search (gated_rules, Gated-owned_by)

  Gated-recent_facts : (head : ℕ) → Preserves AllGated (recent_facts node head)
  unfolding recent_facts
  Gated-recent_facts head = Gated-facts_in _

  Gated-go_on :
      (o : Option Outcome) (others : Exec Text Challenger (List Outcome))
      → Preserves AllGated others
      → Preserves AllGated (go_on o others)
  Gated-go_on none others p = p
  Gated-go_on (some o) others p =
      Preserves-if (is_confirmed o) _ _ (λ _. Preserves-pure _)
        (λ _. Preserves-bind _ _ p (λ more. Preserves-pure _))

  module _ (strict : Bool) where
    Gated-act : (claim : OpenClaim) (f : Fact) → Preserves AllGated (act node strict claim f)
    Gated-act claim f = record { kept = act-IsGated node strict claim f }

    Gated-act_on :
        (claim : OpenClaim) (l : List Fact) → Preserves AllGated (act_on node strict claim l)
    unfolding act_on
    Gated-act_on claim [] = search gated_rules
    Gated-act_on claim (f ∷ l) =
        Preserves-bind _ _ (Gated-act claim f) (λ o. Gated-go_on o _ (Gated-act_on claim l))

    Gated-act_on_all :
        (facts : List Fact) (l : List OpenClaim)
        → Preserves AllGated (act_on_all node strict facts l)
    unfolding act_on_all
    Gated-act_on_all facts [] = search gated_rules
    Gated-act_on_all facts (claim ∷ l) =
        Preserves-bind _ _ (Gated-candidates_for claim facts) (λ candidates.
          Preserves-bind _ _ (Gated-act_on claim candidates)
            (λ outcomes. Preserves-bind _ _ (Gated-act_on_all facts l) (λ more. Preserves-pure _)))

    Gated-book :
        (head : ℕ) (claims : List OpenClaim)
        → Preserves AllGated (elim claims as (λ _. Exec Text Challenger (List Outcome)) [
          | [] ↦ pure []
          | claim ∷ rest ↦
              recent_facts node head >>= λ facts. act_on_all node strict facts (claim ∷ rest)
        ])
    Gated-book head [] = Preserves-pure []
    Gated-book head (claim ∷ rest) =
        Preserves-bind _ _ (Gated-recent_facts head)
          (λ facts. Gated-act_on_all facts (claim ∷ rest))

    -- A whole pass over the book: whatever the node answers, and whether or not the pass throws, every
    -- transaction was sent right after the simulation of the same claim and fact had passed, if this
    -- held of the calls before the pass.
    pub sweep-IsGated :
        (s : Challenger) → IsGated node s.history → IsGated node (sweep node strict s).1.history
    unfolding sweep
    sweep-IsGated s h =
        (Preserves-bind _ _ Gated-head (λ head.
            Preserves-bind _ _ (Gated-open_claims head) (λ claims. Gated-book head claims))).kept
          s h
