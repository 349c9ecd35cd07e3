-- ===== src/Examples/Filters.antt =====
-- A circular repayment: the borrower is 0xbb…, the originator's treasury 0xcc…, the lender 0xdd…; the
-- treasury funds the borrower with fact 0x11…, and the repayment 0x22… comes back within the window.
use clearbook.Prelude.{All, ◌≡◌, ◌↔◌, refl, true, some, none, arith, []}
use clearbook.Text.Hex.{is_hex, IsHexString, hex_string_value, hex_value, hex_from, digit, is_digit}
use clearbook.Contract.{ChainFact, LoanView, challenge_guards, same_fact, not_the_same_payer}
use clearbook.Protocol.{
  TransferFact, Loan, Originator, repayment_claimed, status_number, is_challengeable,
}
use clearbook.Reverts.Vocabulary.{Agrees, dry_run-Agrees}
use clearbook.Predicate.{dry_run}
use clearbook.Predicate.Agrees.{
  IsLoadedFrom, IsLoanOf, preview-eq-guards, first_failure-eq-revert, first_failure-ne-revert,
  input_of, preview, first_error,
}
use clearbook.Examples.{address, fact, address-IsHexString, fact-IsHexString}

abbrev pub funding : TransferFact
funding = record {
  chain_key = 1;
  block_height = 100;
  tx_index = 0;
  log_index = 0;
  token = address b'a';
  from = address b'c';
  to = address b'b';
  amount = 500;
  submitter = address b'e';
  cc_block = 10;
}

abbrev pub repayment : TransferFact
repayment = record {
  chain_key = 1;
  block_height = 150;
  tx_index = 0;
  log_index = 0;
  token = address b'A';
  from = address b'B';
  to = address b'd';
  amount = 450;
  submitter = address b'e';
  cc_block = 20;
}

abbrev pub stored_as : TransferFact → ChainFact
stored_as f = record {
  chain_key = f.chain_key;
  block_height = f.block_height;
  token = hex_string_value f.token;
  from = hex_string_value f.from;
  to = hex_string_value f.to;
  amount = f.amount;
}

abbrev pub loan : Loan
loan = record {
  id = 1;
  originator_id = 7;
  token = address b'a';
  borrower = address b'b';
  principal = 500;
  maturity_block = 1000;
  disbursement_fact_id = fact b'3';
  repayment_fact_id = fact b'2';
  claim_block = 20;
  status = repayment_claimed;
}

abbrev pub originator : Originator
originator = record {
  id = 7;
  owner = address b'f';
  name = [];
  bond = 1000;
  exposure = 500;
  circular_window = 60;
  challenge_window = 100;
  last_claim_block = 20;
  covenants = 1;
  active = true;
}

abbrev pub view : LoanView
view = record {
  status = 2;
  claim_block = 20;
  challenge_window = 100;
  originator_id = 7;
  circular_window = 60;
  repayment_fact_id = hex_string_value (fact b'2');
  disbursement_fact_id = hex_string_value (fact b'3');
}

pub loan-IsLoanOf : IsLoanOf loan originator view
unfolding is_hex status_number
loan-IsLoanOf = record {
  repayment_id = fact-IsHexString b'2' refl;
  disbursement_id = fact-IsHexString b'3' refl;
  same_status = refl;
  same_claim_block = refl;
  same_challenge_window = refl;
  same_originator = refl;
  same_circular_window = refl;
  same_repayment = refl;
  same_disbursement = refl;
  claim_block_set = omega arith;
  originator_set = omega arith;
}

pub funding-IsLoadedFrom : IsLoadedFrom funding (stored_as funding)
unfolding is_hex
funding-IsLoadedFrom = record {
  token_address = address-IsHexString b'a' refl;
  from_address = address-IsHexString b'c' refl;
  to_address = address-IsHexString b'b' refl;
  same_chain = refl;
  same_height = refl;
  same_token = refl;
  same_from = refl;
  same_to = refl;
  same_amount = refl;
}

pub repayment-IsLoadedFrom : IsLoadedFrom repayment (stored_as repayment)
unfolding is_hex
repayment-IsLoadedFrom = record {
  token_address = address-IsHexString b'A' refl;
  from_address = address-IsHexString b'B' refl;
  to_address = address-IsHexString b'd' refl;
  same_chain = refl;
  same_height = refl;
  same_token = refl;
  same_from = refl;
  same_to = refl;
  same_amount = refl;
}

id-IsHexString : IsHexString 64 (fact b'1')
unfolding is_hex
id-IsHexString = fact-IsHexString b'1' refl

preview-eq-guards_example :
    ((preview loan originator view funding repayment
        (stored_as funding)
        (stored_as repayment)
        (fact b'1')
        50
        7
        1000
        500
        loan-IsLoanOf
        funding-IsLoadedFrom
        repayment-IsLoadedFrom
        id-IsHexString).would_succeed
      ≡ true)
    ↔ (challenge_guards view 50
          (hex_string_value (fact b'1'))
          (stored_as funding)
          (stored_as repayment)
          7
        ≡ none)
preview-eq-guards_example =
    preview-eq-guards loan originator view funding repayment (stored_as funding)
      (stored_as repayment) (fact b'1') 50 7 1000 500 loan-IsLoanOf funding-IsLoadedFrom
      repayment-IsLoadedFrom id-IsHexString

-- The example is a breach: no guard reverts.
challenge_open :
    challenge_guards view 50
      (hex_string_value (fact b'1'))
      (stored_as funding)
      (stored_as repayment)
      7
    ≡ none
unfolding challenge_guards hex_string_value hex_value hex_from digit is_digit
challenge_open = refl

first_failure-eq-revert_example :
    first_error
      (preview loan originator view funding repayment
        (stored_as funding)
        (stored_as repayment)
        (fact b'1')
        50
        7
        1000
        500
        loan-IsLoanOf
        funding-IsLoadedFrom
        repayment-IsLoadedFrom
        id-IsHexString).first_failure
    ≡ challenge_guards view 50
        (hex_string_value (fact b'1'))
        (stored_as funding)
        (stored_as repayment)
        7
unfolding hex_string_value hex_value hex_from digit is_digit
first_failure-eq-revert_example =
    first_failure-eq-revert loan originator view funding repayment (stored_as funding)
      (stored_as repayment) (fact b'1') 50 7 1000 500 loan-IsLoanOf funding-IsLoadedFrom
      repayment-IsLoadedFrom id-IsHexString (omega arith) (omega arith)

repayment_id-IsHexString : IsHexString 64 (fact b'2')
unfolding is_hex
repayment_id-IsHexString = fact-IsHexString b'2' refl

-- The repayment cited as its own funding.
first_failure-ne-revert_example :
    (challenge_guards view 50
        (hex_string_value (fact b'2'))
        (stored_as repayment)
        (stored_as repayment)
        7
      ≡ some same_fact)
    × (first_error
          (preview loan originator view repayment repayment
            (stored_as repayment)
            (stored_as repayment)
            (fact b'2')
            50
            7
            1000
            500
            loan-IsLoanOf
            repayment-IsLoadedFrom
            repayment-IsLoadedFrom
            repayment_id-IsHexString).first_failure
        ≡ some not_the_same_payer)
unfolding hex_string_value hex_value hex_from digit is_digit is_challengeable
first_failure-ne-revert_example =
    first_failure-ne-revert loan originator view repayment repayment (stored_as repayment)
      (stored_as repayment) (fact b'2') 50 7 1000 500 loan-IsLoanOf repayment-IsLoadedFrom
      repayment-IsLoadedFrom repayment_id-IsHexString refl refl (omega arith) refl

dry_run-Agrees_example :
    All Agrees
      (dry_run (input_of loan originator funding repayment (fact b'1') 50) 1000 500).conditions
dry_run-Agrees_example =
    dry_run-Agrees (input_of loan originator funding repayment (fact b'1') 50) 1000 500
