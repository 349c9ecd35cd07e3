-- ===== src/Protocol.antt =====
-- The protocol's types and its window arithmetic (frontend/lib/protocol.ts). A block number, an amount
-- and an identifier of a loan are `bigint`s that are never negative, so they are natural numbers.
use clearbook.Prelude.{
  ℕ, ◌+◌, ◌≡◌, ◌↔◌, Bool, true, false, not, ◌&&◌, Option, none, some, arith, leb, ◌==◌, ℤ, pos,
  negsuc, sub_ℕ,
}
use clearbook.Text.{Text, text_eq, codes}

pub data LoanStatus : Type 0 where
  no_loan registered repayment_claimed delinquent settled breached : LoanStatus

-- The number of a status: its place in the enum, where `NONE` stands for no loan.
unfoldable pub status_number : LoanStatus → ℕ
status_number no_loan = 0
status_number registered = 1
status_number repayment_claimed = 2
status_number delinquent = 3
status_number settled = 4
status_number breached = 5

pub record TransferFact : Type 0 where
  pub chain_key : ℕ
  pub block_height : ℕ
  pub tx_index : ℕ
  pub log_index : ℕ
  pub token : Text
  pub from : Text
  pub to : Text
  pub amount : ℕ
  pub submitter : Text
  pub cc_block : ℕ

pub record Loan : Type 0 where
  pub id : ℕ
  pub originator_id : ℕ
  pub token : Text
  pub borrower : Text
  pub principal : ℕ
  pub maturity_block : ℕ
  pub disbursement_fact_id : Text
  pub repayment_fact_id : Text
  pub claim_block : ℕ
  pub status : LoanStatus

pub record Originator : Type 0 where
  pub id : ℕ
  pub owner : Text
  pub name : Text
  pub bond : ℕ
  pub exposure : ℕ
  pub circular_window : ℕ
  pub challenge_window : ℕ
  pub last_claim_block : ℕ
  pub covenants : ℕ
  pub active : Bool

abbrev pub zero_fact : Text
zero_fact = codes "0x0000000000000000000000000000000000000000000000000000000000000000"

-- `!!factId && factId !== ZERO_FACT`: an undefined or empty identifier is no fact either.
unfoldable pub has_fact : Option Text → Bool
has_fact none = false
has_fact (some fact_id) = not (text_eq fact_id (codes "")) && not (text_eq fact_id zero_fact)

unfoldable pub is_challengeable : Loan → Originator → ℕ → Bool
unfolding status_number
is_challengeable loan originator current_block =
    status_number loan.status == status_number repayment_claimed
    && leb current_block (loan.claim_block + originator.challenge_window)

-- A signed difference: negative once the window has closed.
unfoldable pub blocks_left_in_window : Loan → Originator → ℕ → ℤ
blocks_left_in_window loan originator current_block =
    sub_ℕ (loan.claim_block + originator.challenge_window) current_block

abbrev pub is_negative : ℤ → Bool
is_negative (pos n) = false
is_negative (negsuc n) = true

-- A loan can be challenged exactly when its repayment is claimed and the number of blocks left is
-- not negative.
challengeable-iff-blocks_left :
    (loan : Loan) (originator : Originator) (current_block : ℕ)
    → (is_challengeable loan originator current_block ≡ true) ↔ (
        (loan.status ≡ repayment_claimed)
        × (is_negative (blocks_left_in_window loan originator current_block) ≡ false))
unfolding is_challengeable blocks_left_in_window
challengeable-iff-blocks_left loan originator current_block = ground arith
