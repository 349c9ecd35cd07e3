-- ===== src/Challenger/Act/Refusal.antt =====
-- A pair of a claim and a fact is tried once in a run, unless it is confirmed, and `act` never throws.
use clearbook.Prelude.{
  ◌≡◌, refl, Bool, true, false, Option, none, some, ◌∷◌, arith, Bool-cases, inl, inr, ◌&&◌, ◌==◌,
}
use clearbook.Text.{Text, text_eq_refl}
use clearbook.Text.Assoc.{TextSet, has, add, has-add}
use clearbook.Async.{Settled, resolved, rejected, pure, after, handle}
use clearbook.Challenger.Filter.{Fact, OpenClaim, funding_leg_shape, same_borrower}
use clearbook.Challenger.Node.{Node, Challenger, Receipt, wait}
use clearbook.Challenger.Act.{
  Gated, sent, not_sent, act, settle, decide, lose, key, attempt, Outcome, confirmed,
  simulation_reverted, lost_race, declined_strict, is_same_borrower,
}

has-add_self : (k : Text) (s : TextSet) → has k (add k s) ≡ true
has-add_self k s = ground (arith, has-add k k s, text_eq_refl k)

abbrev pub is_confirmed : Outcome → Bool
is_confirmed (confirmed _ _ _ _ _ _) = true
is_confirmed (simulation_reverted _ _ _) = false
is_confirmed (lost_race _ _ _) = false
is_confirmed (declined_strict _ _) = false

module _ (node : Node) (strict : Bool) (claim : OpenClaim) (funding : Fact) where
  -- The method returned an outcome, and unless it is a confirmed challenge the pair is refused now.
  abbrev pub Concludes : Settled Text Outcome → Challenger → Type 0
  Concludes (rejected e) s = ⊥
  Concludes (resolved o) s =
      is_confirmed o ≡ false → has (key node strict claim funding) s.refused ≡ true

  settle-Concludes :
      (hash : Text) (r : Option Receipt) (s : Challenger)
      → Concludes
          (settle node strict claim funding hash r s).0
          (settle node strict claim funding hash r s).1
  settle-Concludes hash none s = λ _. has-add_self _ s.refused
  settle-Concludes hash (some r) s = elim (Bool-cases (r.status == 1)) [
    | inl in_block ↦ rw in_block (λ h. cc)
    | inr reverted ↦ rw reverted (λ _. has-add_self _ s.refused)
  ]

  caught :
      (r : Settled Text Outcome) (s : Challenger)
      → Concludes r s
      → Concludes
          (handle (lose node strict claim funding) r s).0
          (handle (lose node strict claim funding) r s).1
  caught (resolved o) s h = h
  caught (rejected e) s h = absurd h

  receipt-Concludes :
      (hash : Text) (r : Settled Text (Option Receipt)) (s : Challenger)
      → Concludes
          (handle
            (lose node strict claim funding)
            (after (settle node strict claim funding hash) r s).0
            (after (settle node strict claim funding hash) r s).1).0
          (handle
            (lose node strict claim funding)
            (after (settle node strict claim funding hash) r s).0
            (after (settle node strict claim funding hash) r s).1).1
  receipt-Concludes hash (rejected e) s = λ _. has-add_self _ s.refused
  receipt-Concludes hash (resolved r) s = caught _ _ (settle-Concludes hash r s)

  decide-Concludes :
      (r : Settled Text (Gated Text)) (s : Challenger)
      → Concludes (decide node strict claim funding r s).0 (decide node strict claim funding r s).1
  decide-Concludes (rejected e) s = λ _. has-add_self _ s.refused
  decide-Concludes (resolved (not_sent e)) s = λ _. has-add_self _ s.refused
  decide-Concludes (resolved (sent hash)) s =
      receipt-Concludes hash (node.receipt s.history hash)
        (record s { history = wait hash ∷ s.history })

  -- What `act` returns: nothing for a pair that was refused before, with the object unchanged, and else
  -- an outcome.
  abbrev pub Tried : Settled Text (Option Outcome) → Challenger → Challenger → Type 0
  Tried (rejected e) s s' = ⊥
  Tried (resolved none) s s' = (has (key node strict claim funding) s.refused ≡ true) × (s' ≡ s)
  Tried (resolved (some o)) s s' =
      (has (key node strict claim funding) s.refused ≡ false)
      × (is_confirmed o ≡ false → has (key node strict claim funding) s'.refused ≡ true)

  tried :
      (r : Settled Text Outcome) (s s' : Challenger)
      → has (key node strict claim funding) s.refused ≡ false
      → Concludes r s'
      → Tried
          (after {S = Challenger} (λ o. pure (some o)) r s').0
          s
          (after {S = Challenger} (λ o. pure (some o)) r s').1
  tried (rejected e) s s' n h = absurd h
  tried (resolved o) s s' n h = (n, h)

  -- `act` never throws. A pair that was refused before gives no outcome and changes nothing; any other
  -- gives an outcome, after which the pair is refused unless its challenge was confirmed.
  pub act-Tried :
      (s : Challenger)
      → Tried (act node strict claim funding s).0 s (act node strict claim funding s).1
  unfolding act
  act-Tried s = elim (Bool-cases (has (key node strict claim funding) s.refused)) [
    | inl old ↦ rw old (old, refl)
    | inr new ↦
        rw new
          (elim (Bool-cases
            (is_same_borrower (funding_leg_shape funding.to claim.borrower) && strict)) [
              | inl weak ↦ rw weak (new, λ _. has-add_self _ s.refused)
              | inr strong ↦ rw strong (
                  tried (attempt node strict claim funding s).0 s
                    (attempt node strict claim funding s).1 new (decide-Concludes _ _))
            ])
  ]

  -- In strict mode a funding leg that paid the borrower is never simulated or sent: the pair is
  -- declined and refused, and no call is made.
  act_strict_declines :
      (s : Challenger)
      → funding_leg_shape funding.to claim.borrower ≡ same_borrower
      → strict ≡ true
      → has (key node strict claim funding) s.refused ≡ false
      → ((act node strict claim funding s).0
          ≡ resolved (some (declined_strict claim.loan_id funding.fact_id)))
        × ((act node strict claim funding s).1.history ≡ s.history)
        × (has (key node strict claim funding) (act node strict claim funding s).1.refused ≡ true)
  unfolding act
  act_strict_declines s shape on new = rw (new, shape, on) (refl, refl, has-add_self _ s.refused)
