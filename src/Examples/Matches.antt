-- ===== src/Examples/Matches.antt =====
-- The same circular repayment as the worker sees it.
use clearbook.Prelude.{ℕ, ◌≡◌, ◌↔◌, refl, true, none, arith}
use clearbook.Text.{to_lower_case, lower_unit}
use clearbook.Text.Hex.{is_hex, hex_string_value}
use clearbook.Contract.{challenge_guards}
use clearbook.Challenger.Filter.{Fact, OpenClaim, RepaymentView, matches_funding_leg}
use clearbook.Challenger.Filter.Agrees.{IsStoredAs, IsViewOf, IsClaimOf, filter-eq-guards}
use clearbook.Examples.{address, fact, address-IsHexString, fact-IsCanonical}
use clearbook.Examples.Filters.{funding, repayment, stored_as, view}

abbrev pub funding_fact : Fact
funding_fact = record {
  fact_id = fact b'1';
  chain_key = 1;
  block_height = 100;
  token = address b'a';
  from = address b'c';
  to = address b'b';
  amount = 500;
  stored_at = 10;
}

abbrev pub open_claim : OpenClaim
open_claim = record {
  loan_id = 1;
  originator_id = 7;
  borrower = address b'b';
  disbursement_fact_id = fact b'3';
  repayment_fact_id = fact b'2';
  circular_window = 60;
  blocks_left = 70;
}

abbrev pub repayment_view : RepaymentView
repayment_view = record {
  chain_key = 1;
  block_height = 150;
  token = address b'A';
  from = address b'B';
  amount = 450;
}

funding-IsStoredAs : IsStoredAs funding_fact (stored_as funding)
unfolding is_hex to_lower_case lower_unit
funding-IsStoredAs = record {
  id_canonical = fact-IsCanonical b'1' refl refl;
  token_address = address-IsHexString b'a' refl;
  from_address = address-IsHexString b'c' refl;
  to_address = address-IsHexString b'b' refl;
  same_chain = refl;
  same_height = refl;
  same_token = refl;
  same_from = refl;
  same_to = refl;
  same_amount = refl;
}

repayment-IsViewOf : IsViewOf repayment_view (stored_as repayment)
unfolding is_hex
repayment-IsViewOf = record {
  token_address = address-IsHexString b'A' refl;
  from_address = address-IsHexString b'B' refl;
  same_chain = refl;
  same_height = refl;
  same_token = refl;
  same_from = refl;
  same_amount = refl;
}

claim-IsClaimOf : IsClaimOf open_claim view
unfolding is_hex to_lower_case lower_unit
claim-IsClaimOf = record {
  repayment_canonical = fact-IsCanonical b'2' refl refl;
  disbursement_canonical = fact-IsCanonical b'3' refl refl;
  same_originator = refl;
  same_window = refl;
  same_repayment = refl;
  same_disbursement = refl;
  claimed = refl;
}

filter-eq-guards_example :
    ((matches_funding_leg funding_fact repayment_view 60 open_claim ≡ true)
      × (◌≡◌ {A = ℕ} 7 open_claim.originator_id))
    ↔ (challenge_guards view 50
          (hex_string_value (fact b'1'))
          (stored_as funding)
          (stored_as repayment)
          7
        ≡ none)
filter-eq-guards_example =
    filter-eq-guards funding_fact (stored_as funding) repayment_view (stored_as repayment)
      open_claim view 50 7 funding-IsStoredAs repayment-IsViewOf claim-IsClaimOf (omega arith)
