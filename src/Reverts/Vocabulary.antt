-- ===== src/Reverts/Vocabulary.antt =====
-- The preview of a challenge and the decoded revert speak of the same conditions.
use clearbook.Prelude.{ℕ, ◌≡◌, false, none, some, [], All, arith}
use clearbook.Text.{Text, codes, text_eq}
use clearbook.Text.Assoc.{lookup}
use clearbook.Contract.{
  Revert, wrong_status, window_closed, same_fact, disbursement_not_funding, chain_mismatch,
  token_mismatch, not_the_same_payer, funding_not_from_bound_treasury, funding_below_repayment,
  funding_not_before, outside_window,
}
use clearbook.Predicate.{ConditionResult, DryRunInput, dry_run, added_conditions}
use clearbook.Reverts.{Thrown, base_error, decode_revert, decoded_name, explain_error_name}

-- `errorName` of a condition.
abbrev pub error_name : Revert → Text
error_name wrong_status = codes "WrongStatus"
error_name window_closed = codes "WindowClosed"
error_name same_fact = codes "SameFact"
error_name disbursement_not_funding = codes "DisbursementNotFunding"
error_name chain_mismatch = codes "ChainMismatch"
error_name token_mismatch = codes "TokenMismatch"
error_name not_the_same_payer = codes "NotTheSamePayer"
error_name funding_not_from_bound_treasury = codes "FundingNotFromBoundTreasury"
error_name funding_below_repayment = codes "FundingBelowRepayment"
error_name funding_not_before = codes "FundingNotBefore"
error_name outside_window = codes "OutsideWindow"

-- What the wallet's client throws when the contract reverts with this error.
abbrev pub reverted_with : Revert → Thrown
reverted_with e =
    base_error false (some (record { error_name = some (error_name e); reason = none }))
      (codes "ContractFunctionExecutionError") [] []

-- A revert that the wallet meets is named, numbered and explained as the preview does it.
abbrev pub Agrees : ConditionResult → Type 0
Agrees c =
    ((decode_revert (reverted_with c.error_name)).name ≡ error_name c.error_name)
    × ((decode_revert (reverted_with c.error_name)).condition ≡ some c.n)
    × ((decode_revert (reverted_with c.error_name)).explanation
        ≡ explain_error_name (error_name c.error_name))

-- A dry run and a revert speak one vocabulary: for every condition of a dry run, decoding a revert
-- with the error name of the condition gives this name, the number of the condition, and the
-- explanation of the name.
pub dry_run-Agrees :
    (input : DryRunInput) (bond bps : ℕ) → All Agrees (dry_run input bond bps).conditions
unfolding dry_run added_conditions decode_revert decoded_name explain_error_name lookup text_eq
dry_run-Agrees input bond bps = ground arith
