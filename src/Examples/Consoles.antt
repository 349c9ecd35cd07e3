-- ===== src/Examples/Consoles.antt =====
-- A visitor who opens the console on the loan of the circular repayment, cites its funding and clicks.
use clearbook.Prelude.{ℕ, ◌≡◌, refl, sym, true, false, Option, none, some, [], ◌∷◌, if◌then◌else◌}
use mathlib.Core.Path.{subst}
use clearbook.Text.{Text, codes, text_eq, to_lower_case, lower_unit, same_ignoring_case}
use clearbook.Text.Decimal.{decimal, digits_of}
use clearbook.Text.Hex.{is_hash, is_hex, is_digit, hex_string_value}
use clearbook.Text.Parts.{trim, trim_start, trim_end, is_space}
use clearbook.Contract.{challenge_guards}
use clearbook.Protocol.{TransferFact, Loan, status_number}
use clearbook.Predicate.{dry_run, added_conditions, apply_treasury_binding, project_bounty}
use clearbook.Predicate.Agrees.{IsLoadedFrom, IsLoanOf}
use clearbook.Console.{
  Site, Readings, idle_wallet, selected_loan, originator_for, funding_fact_id, result, phase,
  is_deployed, data_source,
}
use clearbook.Console.Ending.{Console, outcome, shown, can_click, on_submit, offers, all_satisfied}
use clearbook.Console.Reach.{Click, Reach}
use clearbook.Console.Rail.{done, stage_state, IsReady, shown-IsReady}
use clearbook.Console.Accepted.{IsInSync, Reach-accepted}
use clearbook.Examples.{address, fact}
use clearbook.Examples.Filters.{
  funding, repayment, stored_as, loan, originator, view, loan-IsLoanOf, funding-IsLoadedFrom,
  repayment-IsLoadedFrom,
}

abbrev site : Site
site = record {
  evidence_vault = some (address b'1');
  clearbook = some (address b'2');
  preview = false;
}

abbrev stored : Text → Option TransferFact
stored id =
    if text_eq id (fact b'1')
    then some funding
    else if text_eq id (fact b'2')
    then some repayment
    else none

abbrev readings : Readings
readings = record {
  loans = loan ∷ [];
  is_loading = false;
  originators = originator ∷ [];
  params = some (record { bond_per_loan = 1000; bounty_bps = 500 });
  current_block = some 50;
  fact = stored;
  owner = λ a. some 7;
  is_connected = true;
}

abbrev cited : Console
cited = record {
  selected = codes "1";
  funding_input = fact b'1';
  seen = readings;
  wallet = idle_wallet;
}

abbrev click : Click
click = record {
  loan_id = 1;
  fact_id = fact b'1';
  selected = codes "1";
  funding_input = fact b'1';
  seen = readings;
}

cited-Reach : Reach site cited []
cited-Reach = Reach.cites (fact b'1') (Reach.opens (codes "1") readings)

cited-shown : shown site cited ≡ some (offers true all_satisfied)
unfolding shown data_source is_deployed result selected_loan originator_for funding_fact_id outcome
    phase dry_run added_conditions apply_treasury_binding project_bounty trim trim_start trim_end
    is_space is_hash is_hex is_digit text_eq same_ignoring_case to_lower_case lower_unit decimal
    digits_of status_number
cited-shown = refl

shown-IsReady_example :
    (ready : IsReady cited) × (can_click site cited ≡ true
      → (stage_state 3 cited ≡ some done)
        × (on_submit site cited ≡ some (ready.loan.id, ready.fact_id)))
shown-IsReady_example = shown-IsReady site cited (offers true all_satisfied) cited-shown

sends : on_submit site cited ≡ some (1, fact b'1')
unfolding on_submit selected_loan funding_fact_id trim trim_start trim_end is_space is_hash is_hex
    is_digit text_eq decimal digits_of
sends = refl

clicks : can_click site cited ≡ true
unfolding can_click
clicks = rw cited-shown refl

clicked-Reach : Reach site cited (click ∷ [])
clicked-Reach = rw sends at (Reach.clicks cited-Reach clicks)

-- The page has loaded what the contracts have stored.
click-IsInSync : IsInSync click view 50 (stored_as funding) (stored_as repayment) 7
unfolding selected_loan originator_for text_eq decimal digits_of
click-IsInSync = record {
  of_loan = λ l o e f.
      let same : loan ≡ l = cc in
      let owned : originator ≡ o = cc in
      subst (λ x. IsLoanOf x o view) same (subst (λ y. IsLoanOf loan y view) owned loan-IsLoanOf);
  of_block = λ b e. let same : ◌≡◌ {A = ℕ} 50 b = cc in sym same;
  of_funding = λ f e.
      let same : funding ≡ f = cc in
      subst (λ x. IsLoadedFrom x (stored_as funding)) same funding-IsLoadedFrom;
  of_repayment = λ l r e h.
      let same : loan ≡ l = cc in
      let there : stored loan.repayment_fact_id ≡ some r =
        subst (λ x. stored x.repayment_fact_id ≡ some r) (sym same) h in
      let held : repayment ≡ r = cc in
      subst (λ x. IsLoadedFrom x (stored_as repayment)) held repayment-IsLoadedFrom;
  of_owner = λ f o e h. let same : ◌≡◌ {A = ℕ} 7 o = cc in sym same;
}

Reach-accepted_example :
    ((l : Loan) × (selected_loan (codes "1") readings ≡ some l) × (◌≡◌ {A = ℕ} l.id 1))
    × (challenge_guards view 50
          (hex_string_value (fact b'1'))
          (stored_as funding)
          (stored_as repayment)
          7
        ≡ none)
Reach-accepted_example =
    Reach-accepted site cited (click ∷ []) clicked-Reach 0 click refl view 50 (stored_as funding)
      (stored_as repayment) 7 click-IsInSync
