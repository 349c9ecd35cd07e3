-- ===== src/Challenger/Filter.antt =====
-- The off-chain filter of worker/src/enforce.ts: the facts, the claims, and which fact deserves a
-- simulation.
pub mod Agrees
use clearbook.Prelude.{
  ℕ, ◌-◌, ◌≡◌, Bool, true, false, not, arith, ltb, ◌==◌, if◌then◌else◌, Option, none, some, or_else,
}
use clearbook.Text.{Text, text_eq, to_lower_case, codes, same_ignoring_case}

pub record Fact : Type 0 where
  pub fact_id : Text
  pub chain_key : ℕ
  pub block_height : ℕ
  pub token : Text
  pub from : Text
  pub to : Text
  pub amount : ℕ
  pub stored_at : ℕ

pub record OpenClaim : Type 0 where
  pub loan_id : ℕ
  pub originator_id : ℕ
  pub borrower : Text
  pub disbursement_fact_id : Text
  pub repayment_fact_id : Text
  pub circular_window : ℕ
  pub blocks_left : ℕ

-- How strongly the evidence points.
pub data Shape : Type 0 where
  third_party same_borrower : Shape

-- `eq` of the source: addresses without regard to case.
unfoldable pub eq : Text → Text → Bool
eq = same_ignoring_case

unfoldable pub funding_leg_shape : Text → Text → Shape
unfolding eq
funding_leg_shape funding_to borrower =
    if eq funding_to borrower then same_borrower else third_party

-- The argument is `env.CHALLENGER_STRICT`.
unfoldable pub is_strict : Option Text → Bool
is_strict value = text_eq (to_lower_case (or_else value (codes ""))) (codes "true")

pub record RepaymentView : Type 0 where
  pub chain_key : ℕ
  pub block_height : ℕ
  pub token : Text
  pub from : Text
  pub amount : ℕ

-- The early returns of the source, in its order; the last argument is the claim.
unfoldable pub matches_funding_leg : Fact → RepaymentView → ℕ → OpenClaim → Bool
unfolding eq
matches_funding_leg f repayment circular_window claim =
    if text_eq f.fact_id claim.repayment_fact_id
    then false
    else if text_eq f.fact_id claim.disbursement_fact_id
    then false
    else if not (f.chain_key == repayment.chain_key)
    then false
    else if not (eq f.token repayment.token)
    then false
    else if not (eq f.to repayment.from)
    then false
    else if ltb f.amount repayment.amount
    then false
    else if ltb repayment.block_height f.block_height
    then false
    else if ltb circular_window (repayment.block_height - f.block_height)
    then false
    else true
