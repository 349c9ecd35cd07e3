-- ===== src/Challenger/Act.antt =====
-- Simulate, then act: `gatedChallenge`, `act` and `bountyFrom` of worker/src/enforce.ts. Log lines are
-- left out; the counters are kept.
pub mod Gate
pub mod Refusal
use clearbook.Prelude.{
  ℕ, ◌≡◌, Bool, true, false, not, ◌&&◌, ◌||◌, Option, none, some, List, [], ◌∷◌, ◌++◌, ◌==◌,
  if◌then◌else◌, ℤ, sub_ℕ,
}
use clearbook.Text.{Text, codes, text_eq}
use clearbook.Text.Decimal.{decimal}
use clearbook.Text.Assoc.{has, add}
use clearbook.Async.{Settled, resolved, rejected, Exec, pure, catch, modify, ◌>>=◌, ◌>>◌}
use clearbook.Metrics.{increment}
use clearbook.Challenger.Filter.{
  Fact, OpenClaim, Shape, third_party, same_borrower, funding_leg_shape,
}
use clearbook.Challenger.Node.{
  Node, Challenger, Receipt, ParsedLog, call, static_call, broadcast, wait,
}

pub data Outcome : Type 0 where
  confirmed : ℕ → Text → Text → ℕ → ℤ → Shape → Outcome
  simulation_reverted lost_race : ℕ → Text → Text → Outcome
  declined_strict : ℕ → Text → Outcome

pub data Gated {ℓ} (A : Type ℓ) : Type ℓ where
  sent : A → Gated A
  not_sent : Text → Gated A

-- What the gate does once the simulation has settled.
abbrev pub gate : {S A B : Type 0} → Exec Text S B → Settled Text A → Exec Text S (Gated B)
gate send (resolved a) = send >>= λ b. pure (sent b)
gate send (rejected reason) = pure (not_sent reason)

unfoldable pub gated_challenge :
    {S A B : Type 0} → Exec Text S A → Exec Text S B → Exec Text S (Gated B)
gated_challenge simulate send s = let (r, s') = simulate s in gate send r s'

-- The first `BountyPaid` event of the receipt; what does not parse is passed over.
unfoldable pub bounty_from : List (Settled Text (Option ParsedLog)) → ℕ
bounty_from [] = 0
bounty_from (rejected e ∷ logs) = bounty_from logs
bounty_from (resolved none ∷ logs) = bounty_from logs
bounty_from (resolved (some l) ∷ logs) =
    let rest = bounty_from logs in if text_eq l.name (codes "BountyPaid") then l.bounty else rest

-- `${claim.loanId}:${funding.factId}`
unfoldable pub pair_key : ℕ → Text → Text
pair_key loan_id fact_id = decimal loan_id ++ (codes ":" ++ fact_id)

abbrev pub refuse : Text → Exec Text Challenger (Unit {0})
refuse key = modify (λ s. record s { refused = add key s.refused })

abbrev pub count : Text → Exec Text Challenger (Unit {0})
count name = modify (λ s. record s { metrics = increment name [] 1 s.metrics })

abbrev pub is_same_borrower : Shape → Bool
is_same_borrower same_borrower = true
is_same_borrower third_party = false

module _ (node : Node) (strict : Bool) (claim : OpenClaim) (funding : Fact) where
  abbrev pub key : Text
  key = pair_key claim.loan_id funding.fact_id

  abbrev pub simulate : Exec Text Challenger (Unit {0})
  simulate =
      call (static_call claim.loan_id funding.fact_id)
        (λ h. node.simulation h claim.loan_id funding.fact_id)

  abbrev pub send : Exec Text Challenger Text
  send =
      call (broadcast claim.loan_id funding.fact_id)
        (λ h. node.transaction h claim.loan_id funding.fact_id)

  -- The catch blocks: the pair is given up for the run.
  abbrev pub lose : Text → Exec Text Challenger Outcome
  lose reason = refuse key >> pure (lost_race claim.loan_id funding.fact_id reason)

  -- The receipt of the transaction.
  abbrev pub settle : Text → Option Receipt → Exec Text Challenger Outcome
  settle hash none = lose (codes "reverted on inclusion")
  settle hash (some r) =
      if not (r.status == 1)
      then lose (codes "reverted on inclusion")
      else count (codes "challenges_confirmed_total")
        >> pure (
            confirmed claim.loan_id funding.fact_id hash (bounty_from r.logs)
              (sub_ℕ r.block_number funding.stored_at)
              (funding_leg_shape funding.to claim.borrower))

  -- What follows the gate.
  abbrev pub decide : Settled Text (Gated Text) → Exec Text Challenger Outcome
  decide (rejected reason) = lose reason
  decide (resolved (not_sent reason)) =
      refuse key >> pure (simulation_reverted claim.loan_id funding.fact_id reason)
  decide (resolved (sent hash)) =
      catch (call (wait hash) (λ h. node.receipt h hash) >>= settle hash) lose

  abbrev pub attempt : Exec Text Challenger Outcome
  attempt s = let (r, s') = gated_challenge simulate send s in decide r s'

  abbrev pub decline : Exec Text Challenger Outcome
  decline =
      refuse key
      >> count (codes "challenger_declined_strict_total")
      >> pure (declined_strict claim.loan_id funding.fact_id)

  -- `none` is the `null` of a pair that was refused before.
  unfoldable pub act : Exec Text Challenger (Option Outcome)
  unfolding gated_challenge
  act s =
      if has key s.refused
      then (resolved none, s)
      else if is_same_borrower (funding_leg_shape funding.to claim.borrower) && strict
      then (decline >>= λ o. pure (some o)) s
      else (attempt >>= λ o. pure (some o)) s
