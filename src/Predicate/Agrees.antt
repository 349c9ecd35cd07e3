-- ===== src/Predicate/Agrees.antt =====
-- The preview against the contract's guards: when it says that a challenge would succeed, which
-- failure it names first, and where its order differs from the contract's.
use clearbook.Prelude.{
  ℕ, ◌≡◌, ◌≢◌, ◌↔◌, refl, true, false, Option, none, some, arith, List, [], ◌∷◌, map,
}
use clearbook.Text.{Text, same_ignoring_case}
use clearbook.Text.Hex.{IsHexString, hex_string_value, same_ignoring_case_iff}
use clearbook.Contract.{
  ChainFact, LoanView, Revert, challenge_guards, same_fact, not_the_same_payer,
}
use clearbook.Protocol.{TransferFact, Loan, Originator, status_number, is_challengeable}
use clearbook.Predicate.{
  ConditionResult, DryRunResult, project_bounty, DryRunInput, dry_run, apply_treasury_binding,
}

-- `c` is what the vault has stored for the fact that the page has loaded as `f`.
pub record IsLoadedFrom (f : TransferFact) (c : ChainFact) : Type 0 where
  pub token_address : IsHexString 40 f.token
  pub from_address : IsHexString 40 f.from
  pub to_address : IsHexString 40 f.to
  pub same_chain : c.chain_key ≡ f.chain_key
  pub same_height : c.block_height ≡ f.block_height
  pub same_token : c.token ≡ hex_string_value f.token
  pub same_from : c.from ≡ hex_string_value f.from
  pub same_to : c.to ≡ hex_string_value f.to
  pub same_amount : c.amount ≡ f.amount

-- `view` is what the contract has stored for the loan and its originator. A claimed repayment has a
-- claim block, which is never 0, and identifiers of originators start at 1.
pub record IsLoanOf (loan : Loan) (originator : Originator) (view : LoanView) : Type 0 where
  pub repayment_id : IsHexString 64 loan.repayment_fact_id
  pub disbursement_id : IsHexString 64 loan.disbursement_fact_id
  pub same_status : view.status ≡ status_number loan.status
  pub same_claim_block : view.claim_block ≡ loan.claim_block
  pub same_challenge_window : view.challenge_window ≡ originator.challenge_window
  pub same_originator : view.originator_id ≡ loan.originator_id
  pub same_circular_window : view.circular_window ≡ originator.circular_window
  pub same_repayment : view.repayment_fact_id ≡ hex_string_value loan.repayment_fact_id
  pub same_disbursement : view.disbursement_fact_id ≡ hex_string_value loan.disbursement_fact_id
  pub claim_block_set : loan.claim_block ≢ 0
  pub originator_set : loan.originator_id ≢ 0

abbrev pub input_of : Loan → Originator → TransferFact → TransferFact → Text → ℕ → DryRunInput
input_of loan originator f r funding_id now = record {
  loan = loan;
  originator = originator;
  repayment = some r;
  funding = some f;
  funding_fact_id = funding_id;
  current_block = now;
}

-- The name of the error that the preview shows first.
abbrev pub first_error : Option ConditionResult → Option Revert
first_error none = none
first_error (some c) = some c.error_name

module _ (loan : Loan) (originator : Originator) (view : LoanView) (f r : TransferFact)
    (cf cr : ChainFact) (funding_id : Text) (now owner bond bps : ℕ)
    (stored : IsLoanOf loan originator view) (funding : IsLoadedFrom f cf)
    (repayment : IsLoadedFrom r cr) (id : IsHexString 64 funding_id) where
  abbrev pub preview : DryRunResult
  preview =
      apply_treasury_binding (dry_run (input_of loan originator f r funding_id now) bond bps)
        (some owner) loan.originator_id

  abbrev verdict : Option Revert
  verdict = challenge_guards view now (hex_string_value funding_id) cf cr owner

  -- The four comparisons of strings that the preview makes, as comparisons of the contract's numbers.
  comparisons :
      ((same_ignoring_case funding_id loan.repayment_fact_id ≡ true)
        ↔ (hex_string_value funding_id ≡ hex_string_value loan.repayment_fact_id))
      × ((same_ignoring_case funding_id loan.disbursement_fact_id ≡ true)
          ↔ (hex_string_value funding_id ≡ hex_string_value loan.disbursement_fact_id))
      × ((same_ignoring_case f.token r.token ≡ true)
          ↔ (hex_string_value f.token ≡ hex_string_value r.token))
      × ((same_ignoring_case f.to r.from ≡ true)
          ↔ (hex_string_value f.to ≡ hex_string_value r.from))
  comparisons = (
    same_ignoring_case_iff 64 funding_id loan.repayment_fact_id id stored.repayment_id,
    same_ignoring_case_iff 64 funding_id loan.disbursement_fact_id id stored.disbursement_id,
    same_ignoring_case_iff 40 f.token r.token funding.token_address repayment.token_address,
    same_ignoring_case_iff 40 f.to r.from funding.to_address repayment.from_address,
  )

  success-guards : preview.would_succeed ≡ true → verdict ≡ none
  unfolding apply_treasury_binding dry_run challenge_guards
  success-guards h = ground (arith, comparisons)

  guards-success : verdict ≡ none → preview.would_succeed ≡ true
  unfolding apply_treasury_binding dry_run challenge_guards
  guards-success h = ground (arith, comparisons)

  -- For a loan with a claim block and an originator, with both facts and the loan loaded as the
  -- contracts store them and the owner of the funding address resolved, the preview says that the
  -- challenge would succeed exactly when no guard of the contract reverts.
  pub preview-eq-guards : (preview.would_succeed ≡ true) ↔ (verdict ≡ none)
  preview-eq-guards = (success-guards, guards-success)

  -- Under the same conditions, where the cited fact is neither of the loan's own, the first failure that the preview shows is
  -- the error with which the contract reverts, and there is none exactly when it does not revert.
  pub first_failure-eq-revert :
      hex_string_value funding_id ≢ hex_string_value loan.repayment_fact_id
      → hex_string_value funding_id ≢ hex_string_value loan.disbursement_fact_id
      → first_error preview.first_failure ≡ verdict
  unfolding apply_treasury_binding dry_run challenge_guards
  first_failure-eq-revert h k = ground (arith, comparisons)

  -- Under the same conditions, where the cited fact is the repayment itself, which two parties exchanged while the claim can be
  -- challenged, the contract reverts with `SameFact` and the preview shows `NotTheSamePayer` first.
  pub first_failure-ne-revert :
      hex_string_value funding_id ≡ hex_string_value loan.repayment_fact_id
      → f ≡ r
      → hex_string_value f.to ≢ hex_string_value f.from
      → is_challengeable loan originator now ≡ true
      → (verdict ≡ some same_fact) × (first_error preview.first_failure ≡ some not_the_same_payer)
  unfolding apply_treasury_binding dry_run challenge_guards is_challengeable
  first_failure-ne-revert h e k o = ground (arith, comparisons)

abbrev numbers : List ConditionResult → List ℕ
numbers = map (λ c. c.n)

-- Without the owner of the funding address the preview never promises success or a payout, whatever
-- has been loaded, and it lists the eleven conditions in their order.
dry_run_undecided :
    (input : DryRunInput) (bond bps : ℕ)
    → ((dry_run input bond bps).would_succeed ≡ false)
      × ((dry_run input bond bps).projected_bounty ≡ none)
      × (numbers (dry_run input bond bps).conditions
          ≡ 1 ∷ 2 ∷ 3 ∷ 4 ∷ 5 ∷ 6 ∷ 7 ∷ 8 ∷ 9 ∷ 10 ∷ 11 ∷ [])
unfolding dry_run project_bounty
dry_run_undecided input bond bps = (ground arith, ground arith, refl)
