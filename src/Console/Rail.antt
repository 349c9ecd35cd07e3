-- ===== src/Console/Rail.antt =====
-- The rail of the console with the state of its four stages, and what the page relies on where it shows
-- an outcome.
use clearbook.Prelude.{
  ℕ, ◌≡◌, refl, Bool, true, false, Option, none, some, ◌==◌, arith, if◌then◌else◌,
}
use clearbook.Text.{Text}
use clearbook.Protocol.{Loan}
use clearbook.Predicate.{DryRunResult}
use clearbook.Console.{
  Site, DataSource, from_chain, from_preview, no_source, is_deployed, Phase, idle, pending,
  confirmed, failed, phase, selected_loan, originator_for, funding_fact_id, result, is_set,
}
use clearbook.Console.Ending.{
  Console, OutcomeView, outcome_shown, unless_loading, rendered, shown, can_click, on_submit,
}
use clearbook.Console.Reach.{bind-some, can_click-IsOffered}

pub data StageState : Type 0 where
  done active : StageState

abbrev pub done_if : Bool → StageState
done_if b = if b then done else active

abbrev is_given : {A : Type 0} → Option A → Bool
is_given none = false
is_given (some a) = true

-- The first two stages: a claim is chosen, and evidence is cited for it.
abbrev pub claim_stage : Option Loan → Option StageState
claim_stage loan = some (done_if (is_given loan))

abbrev pub evidence_stage : Option Loan → Option Text → Option StageState
evidence_stage none fact_id = none
evidence_stage (some loan) fact_id = some (done_if (is_given fact_id))

-- The last two: the covenant is evaluated, and the challenge submitted.
abbrev pub covenant_stage : Option DryRunResult → Option StageState
covenant_stage none = none
covenant_stage (some res) = some (done_if res.would_succeed)

abbrev unless_confirmed : Option DryRunResult → Option StageState
unless_confirmed none = none
unless_confirmed (some res) = if res.would_succeed then some active else none

abbrev pub submit_stage : Phase → Option DryRunResult → Option StageState
submit_stage confirmed res = some done
submit_stage idle res = unless_confirmed res
submit_stage pending res = unless_confirmed res
submit_stage failed res = unless_confirmed res

unfoldable pub stage_state : ℕ → Console → Option StageState
unfolding selected_loan funding_fact_id result phase
stage_state n c =
    let loan = selected_loan c.selected c.seen in
    let fact_id = funding_fact_id c.funding_input in
    let res = result c.selected c.funding_input c.seen in
    if n == 1
    then claim_stage loan
    else if n == 2
    then evidence_stage loan fact_id
    else if n == 3
    then covenant_stage res
    else if n == 4
    then submit_stage (phase c.wallet) res
    else none

-- Where the page shows an outcome: a loan is chosen, which the markup takes for granted, evidence is
-- cited, and the stages before the covenant are done.
pub record IsReady (c : Console) : Type 0 where
  pub loan : Loan
  pub fact_id : Text
  pub chosen : selected_loan c.selected c.seen ≡ some loan
  pub cited : funding_fact_id c.funding_input ≡ some fact_id
  pub claim_done : stage_state 1 c ≡ some done
  pub evidence_done : stage_state 2 c ≡ some done

result-IsReady :
    (c : Console) (res : DryRunResult)
    → result c.selected c.funding_input c.seen ≡ some res
    → IsReady c
unfolding result stage_state
result-IsReady c res made =
    let (l, found, m₁) = bind-some (selected_loan c.selected c.seen) _ res made in
    let (o, owned, m₂) = bind-some (originator_for l c.seen) _ res m₁ in
    let (p, priced, m₃) = bind-some c.seen.params _ res m₂ in
    let (now, dated, m₄) = bind-some c.seen.current_block _ res m₃ in
    let (id, cited, m₅) = bind-some (funding_fact_id c.funding_input) _ res m₄ in
    record {
      loan = l;
      fact_id = id;
      chosen = found;
      cited = cited;
      claim_done = rw found refl;
      evidence_done = rw (found, cited) refl;
    }

outcome_shown-IsReady :
    (site : Site) (c : Console) (o : Option DryRunResult) (shows : OutcomeView)
    → result c.selected c.funding_input c.seen ≡ o
    → outcome_shown site o c ≡ some shows
    → IsReady c
outcome_shown-IsReady site c none shows e h = cc
outcome_shown-IsReady site c (some res) shows e h = result-IsReady c res e

unless_loading-shows :
    (site : Site) (is_loading : Bool) (o : Option OutcomeView) (shows : OutcomeView)
    → unless_loading site is_loading o ≡ some shows
    → o ≡ some shows
unless_loading-shows site true o shows h = cc
unless_loading-shows site false o shows h = h

rendered-IsReady :
    (site : Site) (c : Console) (source : DataSource) (shows : OutcomeView)
    → rendered site source c ≡ some shows
    → IsReady c
rendered-IsReady site c no_source shows h = cc
rendered-IsReady site c from_chain shows h =
    outcome_shown-IsReady site c _ shows refl
      (unless_loading-shows site c.seen.is_loading _ shows h)
rendered-IsReady site c from_preview shows h =
    outcome_shown-IsReady site c _ shows refl
      (unless_loading-shows site c.seen.is_loading _ shows h)

deployed-is_set :
    (site : Site) → is_deployed site ≡ true → (address : Text) × (site.clearbook ≡ some address)
unfolding is_deployed
deployed-is_set site h =
    elim site.clearbook as (λ a. is_set a ≡ true → (x : Text) × (a ≡ some x)) [
      | none ↦ λ k. cc
      | some x ↦ λ k. (x, refl)
    ]
      (ground arith)

-- Where the page shows an outcome, a loan is chosen and evidence is cited for it, so that the loan
-- which the markup asserts to be there is there, and the rail has both stages done. Where the button can
-- be clicked, the covenant's stage is done too, and a click asks the wallet to send, for this loan and
-- this evidence.
pub shown-IsReady :
    (site : Site) (c : Console) (shows : OutcomeView)
    → shown site c ≡ some shows
    → (ready : IsReady c) × (can_click site c ≡ true
        → (stage_state 3 c ≡ some done) × (on_submit site c ≡ some (ready.loan.id, ready.fact_id)))
unfolding shown can_click on_submit stage_state
shown-IsReady site c shows h =
    let ready = rendered-IsReady site c _ shows h in
    (
      ready,
      λ k.
          let (res, made, wins, deployed) = can_click-IsOffered site c k in
          let (address, set) = deployed-is_set site deployed in
          (rw (made, wins) refl, rw (ready.chosen, ready.cited, set) refl),
    )
