-- ===== src/Predicate.antt =====
-- The preview of a challenge (frontend/lib/predicate.ts). The display texts of a condition (title,
-- formal comparison and observed values) are left out: nothing is decided from them.
pub mod Agrees
use clearbook.Prelude.{
  ℕ, ◌+◌, ◌-◌, ◌*◌, ◌/◌, ◌≡◌, refl, Bool, true, false, not, ◌&&◌, Option, none, some, List, [], ◌∷◌,
  ◌++◌, map, leb, ltb, ◌==◌, if◌then◌else◌, every, find,
}
use clearbook.Text.{Text, same_ignoring_case}
use clearbook.Contract.{
  Revert, wrong_status, window_closed, same_fact, disbursement_not_funding, chain_mismatch,
  token_mismatch, not_the_same_payer, funding_not_from_bound_treasury, funding_below_repayment,
  funding_not_before, outside_window,
}
use clearbook.Protocol.{TransferFact, Loan, Originator, status_number, repayment_claimed}

pub data ConditionStatus : Type 0 where
  pass fail unknown : ConditionStatus

pub record ConditionResult : Type 0 where
  pub n : ℕ
  pub error_name : Revert
  pub status : ConditionStatus

pub record DryRunInput : Type 0 where
  pub loan : Loan
  pub originator : Originator
  pub repayment : Option TransferFact
  pub funding : Option TransferFact
  pub funding_fact_id : Text
  pub current_block : ℕ

pub record DryRunResult : Type 0 where
  pub conditions : List ConditionResult
  pub would_succeed : Bool
  pub first_failure : Option ConditionResult
  pub projected_bounty : Option ℕ
  pub bond_per_loan : ℕ
  pub bounty_bps : ℕ

unfoldable pub project_bounty : Bool → ℕ → ℕ → Option ℕ
project_bounty would_succeed bond_per_loan bounty_bps =
    if not would_succeed then none else some ((bond_per_loan * bounty_bps) / 10000)

-- `r === null ? 'unknown' : r ? 'pass' : 'fail'`
abbrev pub status_of : Option Bool → ConditionStatus
status_of none = unknown
status_of (some true) = pass
status_of (some false) = fail

-- `add` of the source: one more condition, with the status of its check.
abbrev pub condition : ℕ → Revert → Option Bool → ConditionResult
condition n error_name check = record { n = n; error_name = error_name; status = status_of check }

-- `both ? check : null`
abbrev pub on_both :
    Option TransferFact
    → Option TransferFact
    → (TransferFact → TransferFact → Option Bool)
    → Option Bool
on_both none repayment check = none
on_both (some f) none check = none
on_both (some f) (some r) check = check f r

-- The conditions in the order in which the source adds them.
unfoldable pub added_conditions : DryRunInput → List ConditionResult
unfolding status_number
added_conditions input =
    let loan = input.loan in
    let originator = input.originator in
    let funding_fact_id = input.funding_fact_id in
    let window_end = loan.claim_block + originator.challenge_window in
    condition 1 wrong_status (some (status_number loan.status == status_number repayment_claimed))
    ∷ condition 2 window_closed
        (if loan.claim_block == 0 then none else some (leb input.current_block window_end))
    ∷ condition 10 same_fact
        (some (not (same_ignoring_case funding_fact_id loan.repayment_fact_id)))
    ∷ condition 11 disbursement_not_funding
        (some (not (same_ignoring_case funding_fact_id loan.disbursement_fact_id)))
    ∷ condition 3 chain_mismatch
        (on_both input.funding input.repayment (λ f r. some (f.chain_key == r.chain_key)))
    ∷ condition 4 token_mismatch
        (on_both input.funding input.repayment (λ f r. some (same_ignoring_case f.token r.token)))
    ∷ condition 5 not_the_same_payer
        (on_both input.funding input.repayment (λ f r. some (same_ignoring_case f.to r.from)))
    ∷ condition 6 funding_not_from_bound_treasury none
    ∷ condition 7 funding_below_repayment
        (on_both input.funding input.repayment (λ f r. some (leb r.amount f.amount)))
    ∷ condition 8 funding_not_before
        (on_both input.funding input.repayment (λ f r. some (leb f.block_height r.block_height)))
    ∷ condition 9 outside_window (
        on_both input.funding input.repayment (λ f r.
          if leb f.block_height r.block_height
          then some (leb (r.block_height - f.block_height) originator.circular_window)
          else none))
    ∷ []

-- `conditions.sort((a, b) => a.n - b.n)`, a stable sort.
abbrev pub insert_by_n : ConditionResult → List ConditionResult → List ConditionResult
insert_by_n c [] = c ∷ []
insert_by_n c (d ∷ ds) = if leb c.n d.n then c ∷ d ∷ ds else d ∷ insert_by_n c ds

abbrev pub sort_by_n : List ConditionResult → List ConditionResult
sort_by_n [] = []
sort_by_n (c ∷ cs) = insert_by_n c (sort_by_n cs)

abbrev pub is_fail : ConditionResult → Bool
is_fail c = elim c.status [ fail ↦ true | _ ↦ false ]

abbrev pub is_pass : ConditionResult → Bool
is_pass c = elim c.status [ pass ↦ true | _ ↦ false ]

-- The summary that `dryRun` and `applyTreasuryBinding` both make of their conditions.
abbrev pub summary : List ConditionResult → ℕ → ℕ → DryRunResult
summary conditions bond_per_loan bounty_bps =
    let would_succeed = every is_pass conditions in
    record {
      conditions = conditions;
      would_succeed = would_succeed;
      first_failure = find is_fail conditions;
      projected_bounty = project_bounty would_succeed bond_per_loan bounty_bps;
      bond_per_loan = bond_per_loan;
      bounty_bps = bounty_bps;
    }

unfoldable pub dry_run : DryRunInput → ℕ → ℕ → DryRunResult
unfolding added_conditions
dry_run input bond_per_loan bounty_bps =
    summary (sort_by_n (added_conditions input)) bond_per_loan bounty_bps

-- Condition 6 with the owner of the funding address, which is `none` while it is not known.
abbrev pub bind_condition : Option ℕ → ℕ → ConditionResult → ConditionResult
bind_condition none loan_originator_id c =
    if not (c.n == 6) then c else record c { status = unknown }
bind_condition (some owner) loan_originator_id c = if not (c.n == 6) then c else record c {
  status = if owner == loan_originator_id && not (owner == 0) then pass else fail;
}

unfoldable pub apply_treasury_binding : DryRunResult → Option ℕ → ℕ → DryRunResult
apply_treasury_binding result funding_from_originator_id loan_originator_id =
    summary (map (bind_condition funding_from_originator_id loan_originator_id) result.conditions)
      result.bond_per_loan result.bounty_bps
