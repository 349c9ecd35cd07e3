-- ===== src/Contract.antt =====
-- The deployed contract's challenge predicate, which the off-chain code asks and mirrors:
-- contracts/src/libraries/CovenantLib.sol and the guards of `challenge` in contracts/src/Clearbook.sol.
-- Addresses and identifiers are the numbers that the contract compares.
use clearbook.Prelude.{ℕ, ◌+◌, ◌-◌, Bool, true, false, Option, none, some, not, ltb, ◌==◌}

-- Clearbook.LoanStatus, as the number of its place in the enum.
abbrev pub repayment_claimed : ℕ
repayment_claimed = 2

-- The fields of IEvidenceVault.TransferFact that the predicate reads.
pub record ChainFact : Type 0 where
  pub chain_key : ℕ
  pub block_height : ℕ
  pub token : ℕ
  pub from : ℕ
  pub to : ℕ
  pub amount : ℕ

-- The custom errors of the predicate.
pub data Revert : Type 0 where
  wrong_status window_closed same_fact disbursement_not_funding : Revert
  chain_mismatch token_mismatch not_the_same_payer funding_not_from_bound_treasury : Revert
  funding_below_repayment funding_not_before outside_window : Revert

-- `if (test) revert e;` before the rest: the first revert is the result.
abbrev pub revert_if : Bool → Revert → Option Revert → Option Revert
revert_if true e rest = some e
revert_if false e rest = rest

-- Conditions 3 to 9. `none` means that no condition reverts.
unfoldable pub require_circular_repayment_breach : ChainFact → ChainFact → ℕ → ℕ → ℕ → Option Revert
require_circular_repayment_breach f r funding_from_originator loan_originator circular_window =
    revert_if (not (f.chain_key == r.chain_key)) chain_mismatch (
      revert_if (not (f.token == r.token)) token_mismatch (
        revert_if (not (f.to == r.from)) not_the_same_payer (
          revert_if (not (funding_from_originator == loan_originator))
            funding_not_from_bound_treasury
            (revert_if (ltb f.amount r.amount) funding_below_repayment (
              revert_if (ltb r.block_height f.block_height) funding_not_before (
                revert_if (ltb circular_window (r.block_height - f.block_height)) outside_window
                  none))))))

-- What `challenge` reads of the loan and its originator.
pub record LoanView : Type 0 where
  pub status : ℕ
  pub claim_block : ℕ
  pub challenge_window : ℕ
  pub originator_id : ℕ
  pub circular_window : ℕ
  pub repayment_fact_id : ℕ
  pub disbursement_fact_id : ℕ

-- The guards of `challenge(loanId, fundingFactId)` at block `now`, in their order, over the two facts
-- and the owner of the funding address.
unfoldable pub challenge_guards : LoanView → ℕ → ℕ → ChainFact → ChainFact → ℕ → Option Revert
unfolding require_circular_repayment_breach
challenge_guards loan now funding_id f r owner =
    revert_if (not (loan.status == repayment_claimed)) wrong_status (
      revert_if (ltb (loan.claim_block + loan.challenge_window) now) window_closed (
        revert_if (funding_id == loan.repayment_fact_id) same_fact (
          revert_if (funding_id == loan.disbursement_fact_id) disbursement_not_funding
            (require_circular_repayment_breach f r owner loan.originator_id loan.circular_window))))
