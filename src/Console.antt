-- ===== src/Console.antt =====
-- The challenge console (frontend/app/challenge/page.tsx): what the page makes of the values that its
-- hooks return. The hooks of wagmi and the chain reads are values that may change at any time; the
-- markup is left out.
pub mod Ending
pub mod Rail
pub mod Reach
pub mod Accepted
use clearbook.Prelude.{
  ℕ, Bool, true, false, not, ◌&&◌, ◌||◌, Option, none, some, List, ◌==◌, if◌then◌else◌, find, keep,
  exists,
}
use clearbook.Text.{Text, text_eq, codes}
use clearbook.Text.Decimal.{decimal}
use clearbook.Text.Hex.{is_hash}
use clearbook.Text.Parts.{trim}
use clearbook.Reverts.{Thrown, DecodedRevert, decode_revert}
use clearbook.Protocol.{TransferFact, Loan, Originator, is_challengeable}
use clearbook.Predicate.{
  ConditionResult, DryRunInput, DryRunResult, dry_run, apply_treasury_binding,
}

-- The build's addresses and its preview flag (frontend/lib/config.ts).
pub record Site : Type 0 where
  pub evidence_vault : Option Text
  pub clearbook : Option Text
  pub preview : Bool

abbrev pub is_set : Option Text → Bool
is_set none = false
is_set (some address) = true

unfoldable pub is_deployed : Site → Bool
is_deployed site = is_set site.evidence_vault && is_set site.clearbook

pub data DataSource : Type 0 where
  from_chain from_preview no_source : DataSource

unfoldable pub data_source : Site → DataSource
unfolding is_deployed
data_source site =
    if is_deployed site then from_chain else if site.preview then from_preview else no_source

pub record Params : Type 0 where
  pub bond_per_loan : ℕ
  pub bounty_bps : ℕ

-- What the hooks of a render return: a fact and the owner of an address are `none` until they are
-- loaded, and when there is none.
pub record Readings : Type 0 where
  pub loans : List Loan
  pub is_loading : Bool
  pub originators : List Originator
  pub params : Option Params
  pub current_block : Option ℕ
  pub fact : Text → Option TransferFact
  pub owner : Text → Option ℕ
  pub is_connected : Bool

-- `useWriteContract` and `useWaitForTransactionReceipt`.
pub record Wallet : Type 0 where
  pub tx_hash : Option Text
  pub write_error : Option Thrown
  pub waiting : Bool
  pub is_success : Bool

-- After `reset()` there is no hash and no error, and without a hash no receipt.
abbrev pub idle_wallet : Wallet
idle_wallet = record { tx_hash = none; write_error = none; waiting = false; is_success = false }

pub data Phase : Type 0 where
  idle pending confirmed failed : Phase

abbrev phase_of_hash : Option Text → Phase
phase_of_hash none = idle
phase_of_hash (some hash) = pending

abbrev phase_without_error : Bool → Option Text → Phase
phase_without_error is_success tx_hash = if is_success then confirmed else phase_of_hash tx_hash

abbrev phase_with : Option Thrown → Bool → Option Text → Phase
phase_with none is_success tx_hash = phase_without_error is_success tx_hash
phase_with (some e) is_success tx_hash = failed

unfoldable pub phase : Wallet → Phase
phase w = phase_with w.write_error w.is_success w.tx_hash

unfoldable pub selected_loan : Text → Readings → Option Loan
selected_loan selected r = find (λ l. text_eq (decimal l.id) selected) r.loans

unfoldable pub originator_for : Loan → Readings → Option Originator
originator_for loan r = find (λ o. o.id == loan.originator_id) r.originators

-- The identifier in the input, if it is one.
unfoldable pub funding_fact_id : Text → Option Text
funding_fact_id input = if is_hash (trim input) then some (trim input) else none

abbrev pub owner_of : Option TransferFact → Readings → Option ℕ
owner_of none r = none
owner_of (some funding) r = r.owner funding.from

-- The preview of a challenge, once everything that it is made of is there.
abbrev pub evaluate : Readings → Loan → Originator → Params → ℕ → Text → DryRunResult
evaluate r loan originator params current_block fact_id =
    apply_treasury_binding
      (dry_run
        (record {
          loan = loan;
          originator = originator;
          repayment = r.fact loan.repayment_fact_id;
          funding = r.fact fact_id;
          funding_fact_id = fact_id;
          current_block = current_block;
        })
        params.bond_per_loan params.bounty_bps)
      (owner_of (r.fact fact_id) r) loan.originator_id

infixl 5 ◌>>=◌
-- A value that is made of another one, only if that is there.
abbrev pub ◌>>=◌ : {A B : Type 0} → Option A → (A → Option B) → Option B
◌>>=◌ none k = none
◌>>=◌ (some a) k = k a

abbrev pub result_with :
    Readings
    → Option Loan
    → (Loan → Option Originator)
    → Option Params
    → Option ℕ
    → Option Text
    → Option DryRunResult
result_with r loan originator params block fact_id = do
  l ← loan
  o ← originator l
  p ← params
  now ← block
  id ← fact_id
  some (evaluate r l o p now id)

unfoldable pub result : Text → Text → Readings → Option DryRunResult
unfolding selected_loan originator_for funding_fact_id
result selected input r =
    result_with r (selected_loan selected r) (λ l. originator_for l r) r.params r.current_block
      (funding_fact_id input)

-- The loans that the page offers: none before the block is known.
abbrev is_open_at : Option ℕ → List Originator → Loan → Bool
is_open_at none originators l = false
is_open_at (some now) originators l =
    exists (λ o. (o.id == l.originator_id) && is_challengeable l o now) originators

unfoldable pub challengeable : Readings → List Loan
challengeable r = keep (is_open_at r.current_block r.originators) r.loans
