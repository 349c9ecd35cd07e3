-- ===== src/Challenger/Act/Gate.antt =====
-- The gate: no transaction is sent unless the simulation with the same arguments has just passed.
use clearbook.Prelude.{
  ℕ, ◌≡◌, refl, Bool, Option, none, some, [], ◌∷◌, arith, Bool-cases, inl, inr, ◌&&◌,
}
use clearbook.Text.{Text}
use clearbook.Text.Assoc.{has}
use clearbook.Async.{Settled, resolved, rejected, Exec, pure, after, handle, ◌>>=◌}
use clearbook.Challenger.Filter.{Fact, OpenClaim, funding_leg_shape}
use clearbook.Challenger.Node.{
  Node, Challenger, History, Receipt, broadcast, static_call, get_block_number, next_loan_id, loans,
  originators, query_facts, get_fact, treasury_owner, wait,
}
use clearbook.Challenger.Act.{
  Gated, sent, not_sent, gated_challenge, act, settle, decide, lose, send, key, attempt, gate,
  Outcome, is_same_borrower,
}

module _ {S A B : Type 0} (simulate : Exec Text S A) (send : Exec Text S B) (s : S) where
  -- If the simulation throws, its message is the result, and the object is as the simulation left it;
  -- if it returns, the transaction is sent from there, and its result or its error is the result.
  pub gated_challenge_cases :
      ((e : Text)
        → (simulate s).0 ≡ rejected e
        → gated_challenge simulate send s ≡ (resolved (not_sent e), (simulate s).1))
      × ((a : A)
          → (simulate s).0 ≡ resolved a
          → gated_challenge simulate send s ≡ (send >>= λ b. pure (sent b)) (simulate s).1)
  unfolding gated_challenge
  gated_challenge_cases = (λ e h. rw h, λ a h. rw h)

-- The call before, in a history: the simulation of the same pair, which passed.
abbrev pub Passed : Node → ℕ → Text → History → Type 0
Passed node i f [] = ⊥
Passed node i f (static_call j g ∷ h) = (i ≡ j) × (f ≡ g) × (node.simulation h j g ≡ resolved tt)
Passed node i f (broadcast _ _ ∷ h) = ⊥
Passed node i f (wait _ ∷ h) = ⊥
Passed node i f (get_block_number ∷ h) = ⊥
Passed node i f (next_loan_id ∷ h) = ⊥
Passed node i f (loans _ ∷ h) = ⊥
Passed node i f (originators _ ∷ h) = ⊥
Passed node i f (query_facts _ _ ∷ h) = ⊥
Passed node i f (get_fact _ ∷ h) = ⊥
Passed node i f (treasury_owner _ ∷ h) = ⊥

-- Every transaction of the history was sent right after its simulation passed.
abbrev pub IsGated : Node → History → Type 0
IsGated node [] = Unit
IsGated node (broadcast i f ∷ h) = Passed node i f h × IsGated node h
IsGated node (static_call _ _ ∷ h) = IsGated node h
IsGated node (wait _ ∷ h) = IsGated node h
IsGated node (get_block_number ∷ h) = IsGated node h
IsGated node (next_loan_id ∷ h) = IsGated node h
IsGated node (loans _ ∷ h) = IsGated node h
IsGated node (originators _ ∷ h) = IsGated node h
IsGated node (query_facts _ _ ∷ h) = IsGated node h
IsGated node (get_fact _ ∷ h) = IsGated node h
IsGated node (treasury_owner _ ∷ h) = IsGated node h

module _ (node : Node) (strict : Bool) (claim : OpenClaim) (funding : Fact) where
  -- The wait for the receipt, in its `try` block, adds no call of its own.
  receipt-history :
      (hash : Text) (r : Settled Text (Option Receipt)) (s : Challenger)
      → (handle
          (lose node strict claim funding)
          (after (settle node strict claim funding hash) r s).0
          (after (settle node strict claim funding hash) r s).1).1.history
        ≡ s.history
  receipt-history hash (rejected e) s = refl
  receipt-history hash (resolved none) s = refl
  receipt-history hash (resolved (some r)) s = ground arith

  decide-IsGated :
      (r : Settled Text (Gated Text)) (s : Challenger)
      → IsGated node s.history
      → IsGated node (decide node strict claim funding r s).1.history
  decide-IsGated (rejected e) s h = h
  decide-IsGated (resolved (not_sent e)) s h = h
  decide-IsGated (resolved (sent hash)) s h =
      rw
        (receipt-history hash (node.receipt s.history hash)
          (record s { history = wait hash ∷ s.history }))
        h

  sent-IsGated :
      (q : Settled Text Text) (s : Challenger)
      → IsGated node s.history
      → IsGated node
          (decide node strict claim funding
            (after (λ b. pure (sent b)) q s).0
            (after {B = Gated Text} (λ b. pure (sent b)) q s).1).1.history
  sent-IsGated (resolved hash) s h = decide-IsGated (resolved (sent hash)) s h
  sent-IsGated (rejected e) s h = decide-IsGated (rejected e) s h

  abbrev simulated : Challenger → Challenger
  simulated s = record s { history = static_call claim.loan_id funding.fact_id ∷ s.history }

  abbrev gated : Settled Text (Unit {0}) → Challenger → Settled Text (Gated Text) × Challenger
  gated r s = gate (send node strict claim funding) r s

  simulation-IsGated :
      (r : Settled Text (Unit {0})) (s : Challenger)
      → node.simulation s.history claim.loan_id funding.fact_id ≡ r
      → IsGated node s.history
      → IsGated node
          (decide node strict claim funding
            (gated r (simulated s)).0
            (gated r (simulated s)).1).1.history
  simulation-IsGated (rejected e) s p h = decide-IsGated (resolved (not_sent e)) (simulated s) h
  simulation-IsGated (resolved u) s p h =
      sent-IsGated (node.transaction (simulated s).history claim.loan_id funding.fact_id)
        (record s {
          history =
              broadcast claim.loan_id funding.fact_id
              ∷ static_call claim.loan_id funding.fact_id
              ∷ s.history;
        })
        ((refl, refl, p), h)

  some-state :
      (r : Settled Text Outcome) (s : Challenger)
      → (after {S = Challenger} (λ o. pure (some o)) r s).1 ≡ s
  some-state (resolved o) s = refl
  some-state (rejected e) s = refl

  -- One candidate: whatever the node answers, a transaction is sent only right after the simulation of
  -- the same claim and fact has passed.
  pub act-IsGated :
      (s : Challenger)
      → IsGated node s.history
      → IsGated node (act node strict claim funding s).1.history
  unfolding act
  act-IsGated s h = elim (Bool-cases (has (key node strict claim funding) s.refused)) [
    | inl old ↦ rw old h
    | inr new ↦
        rw new
          (elim (Bool-cases
            (is_same_borrower (funding_leg_shape funding.to claim.borrower) && strict)) [
              | inl weak ↦ rw weak h
              | inr strong ↦
                  rw
                    (
                      strong,
                      some-state (attempt node strict claim funding s).0
                          (attempt node strict claim funding s).1,
                    )
                    (simulation-IsGated (node.simulation s.history claim.loan_id funding.fact_id) s
                      refl h)
            ])
  ]
