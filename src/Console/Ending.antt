-- ===== src/Console/Ending.antt =====
-- The end of the console's page (`Outcome` of frontend/app/challenge/page.tsx): what it shows, when its
-- button can be clicked, and what a click asks of the wallet.
use clearbook.Prelude.{ℕ, Bool, true, false, ◌&&◌, Option, none, some, if◌then◌else◌}
use clearbook.Text.{Text}
use clearbook.Reverts.{Thrown, DecodedRevert, decode_revert}
use clearbook.Protocol.{Loan}
use clearbook.Predicate.{ConditionResult, DryRunResult}
use clearbook.Console.{
  DataSource, Phase, Readings, Site, Wallet, confirmed, data_source, failed, from_chain,
  from_preview, funding_fact_id, idle, is_deployed, no_source, pending, phase, result,
  selected_loan, ◌>>=◌,
}

pub data Decision : Type 0 where
  all_satisfied evaluating : Decision
  would_revert : ConditionResult → Decision

-- What `Outcome` shows; `offers` comes with the button, and says whether it can be clicked.
pub data OutcomeView : Type 0 where
  breach_verified : Text → OutcomeView
  rejected_with : DecodedRevert → OutcomeView
  awaits : Option Text → OutcomeView
  offers : Bool → Decision → OutcomeView

abbrev pub decision_of : Bool → Option ConditionResult → Decision
decision_of true failure = all_satisfied
decision_of false none = evaluating
decision_of false (some failure) = would_revert failure

abbrev pub offer_of : DryRunResult → Bool → OutcomeView
offer_of res can_submit =
    offers (res.would_succeed && can_submit) (decision_of res.would_succeed res.first_failure)

abbrev still : Wallet → DryRunResult → Bool → OutcomeView
still w res can_submit = if w.waiting then awaits w.tx_hash else offer_of res can_submit

abbrev outcome_in : Phase → Option Text → Option Thrown → Wallet → DryRunResult → Bool → OutcomeView
outcome_in confirmed (some hash) e w res can_submit = breach_verified hash
outcome_in confirmed none e w res can_submit = still w res can_submit
outcome_in failed hash (some e) w res can_submit = rejected_with (decode_revert e)
outcome_in failed hash none w res can_submit = still w res can_submit
outcome_in pending hash e w res can_submit = awaits hash
outcome_in idle hash e w res can_submit = still w res can_submit

unfoldable pub outcome : Wallet → DryRunResult → Bool → OutcomeView
unfolding phase
outcome w res can_submit = outcome_in (phase w) w.tx_hash w.write_error w res can_submit

-- The state of the page, and the wallet's.
pub record Console : Type 0 where
  pub selected : Text
  pub funding_input : Text
  pub seen : Readings
  pub wallet : Wallet

module _ (site : Site) where
  -- What stands at the end of the page: nothing while there is no source or the book is loading, and a
  -- hint while there is no result.
  abbrev pub outcome_shown : Option DryRunResult → Console → Option OutcomeView
  outcome_shown none c = none
  outcome_shown (some res) c = some (outcome c.wallet res (is_deployed site && c.seen.is_connected))

  abbrev pub unless_loading : Bool → Option OutcomeView → Option OutcomeView
  unless_loading true o = none
  unless_loading false o = o

  abbrev pub rendered : DataSource → Console → Option OutcomeView
  rendered no_source c = none
  rendered from_chain c =
      unless_loading c.seen.is_loading (outcome_shown (result c.selected c.funding_input c.seen) c)
  rendered from_preview c =
      unless_loading c.seen.is_loading (outcome_shown (result c.selected c.funding_input c.seen) c)

  unfoldable pub shown : Console → Option OutcomeView
  unfolding data_source
  shown c = rendered (data_source site) c

  -- The button is on the page and is not disabled.
  abbrev pub enables : Option OutcomeView → Bool
  enables (some (offers can_click decision)) = can_click
  enables _ = false

  unfoldable pub can_click : Console → Bool
  unfolding shown
  can_click c = enables (shown c)

  abbrev args_of : Option Loan → Option Text → Option Text → Option (ℕ × Text)
  args_of loan fact_id clearbook = do l ← loan; id ← fact_id; address ← clearbook; some (l.id, id)

  -- `submit`: the arguments of `challenge` with which the wallet is asked to send, or nothing.
  unfoldable pub on_submit : Console → Option (ℕ × Text)
  unfolding selected_loan funding_fact_id
  on_submit c =
      args_of (selected_loan c.selected c.seen) (funding_fact_id c.funding_input) site.clearbook
