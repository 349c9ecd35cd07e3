-- ===== src/Console/Reach.antt =====
-- What can happen on the console: the visitor chooses, cites and clicks, the hooks return other values
-- and the wallet's hooks report anything, in any order. The clicks are kept with what the page had read.
use clearbook.Prelude.{
  ℕ, ◌≡◌, refl, Bool, true, false, Option, none, some, List, [], ◌∷◌, get_elem?, All, arith,
}
use mathlib.Core.Path.{subst}
use clearbook.Text.{Text, codes}
use clearbook.Text.Decimal.{decimal}
use clearbook.Protocol.{Loan, Originator}
use clearbook.Predicate.{DryRunResult}
use clearbook.Console.{
  Site, DataSource, from_chain, from_preview, no_source, is_deployed, data_source, Readings, Wallet,
  idle_wallet, selected_loan, originator_for, funding_fact_id, result, challengeable, phase,
  evaluate, Params, ◌>>=◌,
}
use clearbook.Console.Ending.{
  outcome, OutcomeView, Console, outcome_shown, rendered, unless_loading, shown, enables, can_click,
  on_submit,
}

-- A transaction that the wallet was asked for: the arguments of `challenge`, and the page at the click.
pub record Click : Type 0 where
  pub loan_id : ℕ
  pub fact_id : Text
  pub selected : Text
  pub funding_input : Text
  pub seen : Readings

abbrev pub with_click : Option (ℕ × Text) → Console → List Click → List Click
with_click none c past = past
with_click (some (loan_id, fact_id)) c past =
    record {
      loan_id = loan_id;
      fact_id = fact_id;
      selected = c.selected;
      funding_input = c.funding_input;
      seen = c.seen;
    }
    ∷ past

-- A write that starts clears the hash and the error of the one before.
abbrev pub clicked : Option (ℕ × Text) → Console → Console
clicked none c = c
clicked (some args) c = record c { wallet = idle_wallet }

pub data Reach (site : Site) : Console → List Click → Type 0 where
  opens :
      (loan_in_address : Text) (seen : Readings)
      → Reach site
          (record {
            selected = loan_in_address;
            funding_input = codes "";
            seen = seen;
            wallet = idle_wallet;
          })
          []
  chooses :
      {c : Console} {past : List Click} (i : ℕ) (l : Loan)
      → Reach site c past
      → get_elem? (challengeable c.seen) i ≡ some l
      → Reach site
          (record c { selected = decimal l.id; funding_input = codes ""; wallet = idle_wallet })
          past
  -- By hand or from the list of the vault's facts.
  cites :
      {c : Console} {past : List Click} (text : Text)
      → Reach site c past
      → Reach site (record c { funding_input = text; wallet = idle_wallet }) past
  reads :
      {c : Console} {past : List Click} (seen : Readings)
      → Reach site c past
      → Reach site (record c { seen = seen }) past
  reports :
      {c : Console} {past : List Click} (wallet : Wallet)
      → Reach site c past
      → Reach site (record c { wallet = wallet }) past
  clicks :
      {c : Console} {past : List Click}
      → Reach site c past
      → can_click site c ≡ true
      → Reach site (clicked (on_submit site c) c) (with_click (on_submit site c) c past)

-- The page had evaluated the conditions for the loan and the fact of the transaction, and all of them
-- passed.
pub record IsPreviewed (k : Click) : Type 0 where
  pub loan : Loan
  pub originator : Originator
  pub params : Params
  pub now : ℕ
  pub found : selected_loan k.selected k.seen ≡ some loan
  pub owned : originator_for loan k.seen ≡ some originator
  pub dated : k.seen.current_block ≡ some now
  pub cited : funding_fact_id k.funding_input ≡ some k.fact_id
  pub named : loan.id ≡ k.loan_id
  pub passed : (evaluate k.seen loan originator params now k.fact_id).would_succeed ≡ true

-- An outcome with a button that can be clicked.
outcome-enables :
    (site : Site) (w : Wallet) (res : DryRunResult) (can_submit : Bool)
    → enables site (some (outcome w res can_submit)) ≡ true
    → (res.would_succeed ≡ true) × (can_submit ≡ true)
unfolding outcome phase
outcome-enables site w res can_submit h = ground arith

unless_loading-enables :
    (site : Site) (is_loading : Bool) (o : Option OutcomeView)
    → enables site (unless_loading site is_loading o) ≡ true
    → enables site o ≡ true
unless_loading-enables site true o h = cc
unless_loading-enables site false o h = h

module _ (site : Site) (c : Console) where
  -- What is behind a click: a result that would succeed, on a site that is deployed.
  abbrev pub IsOffered : Type 0
  IsOffered =
      (res : DryRunResult) × (result c.selected c.funding_input c.seen ≡ some res)
      × (res.would_succeed ≡ true)
      × (is_deployed site ≡ true)

  outcome_shown-IsOffered :
      (o : Option DryRunResult)
      → result c.selected c.funding_input c.seen ≡ o
      → enables site (outcome_shown site o c) ≡ true
      → IsOffered
  outcome_shown-IsOffered none e h = cc
  outcome_shown-IsOffered (some res) e h =
      let (wins, ready) = outcome-enables site c.wallet res _ h in (res, e, wins, ground arith)

  rendered-IsOffered :
      (source : DataSource) → enables site (rendered site source c) ≡ true → IsOffered
  rendered-IsOffered no_source h = cc
  rendered-IsOffered from_chain h =
      outcome_shown-IsOffered _ refl (unless_loading-enables site c.seen.is_loading _ h)
  rendered-IsOffered from_preview h =
      outcome_shown-IsOffered _ refl (unless_loading-enables site c.seen.is_loading _ h)

  pub can_click-IsOffered : can_click site c ≡ true → IsOffered
  unfolding can_click shown
  can_click-IsOffered h = rendered-IsOffered (data_source site) h

pub bind-some :
    {A B : Type 0} (o : Option A) (k : A → Option B) (b : B)
    → (o >>= k) ≡ some b
    → (a : A) × (o ≡ some a) × (k a ≡ some b)
bind-some none k b h = cc
bind-some (some a) k b h = (a, refl, h)

module _ (site : Site) (c : Console) where
  abbrev click_of : ℕ → Text → Click
  click_of loan_id fact_id = record {
    loan_id = loan_id;
    fact_id = fact_id;
    selected = c.selected;
    funding_input = c.funding_input;
    seen = c.seen;
  }

  -- The arguments of the transaction are the ones that were evaluated.
  click-IsPreviewed :
      (loan_id : ℕ) (fact_id : Text)
      → IsOffered site c
      → on_submit site c ≡ some (loan_id, fact_id)
      → IsPreviewed (click_of loan_id fact_id)
  unfolding result on_submit
  click-IsPreviewed loan_id fact_id (res, made, wins, ready) h =
      let (l, found, m₁) = bind-some (selected_loan c.selected c.seen) _ res made in
      let (o, owned, m₂) = bind-some (originator_for l c.seen) _ res m₁ in
      let (p, priced, m₃) = bind-some c.seen.params _ res m₂ in
      let (now, dated, m₄) = bind-some c.seen.current_block _ res m₃ in
      let (id, cited, m₅) = bind-some (funding_fact_id c.funding_input) _ res m₄ in
      let (l', found', s₁) = bind-some (selected_loan c.selected c.seen) _ (loan_id, fact_id) h in
      let (id', cited', s₂) = bind-some (funding_fact_id c.funding_input) _ (loan_id, fact_id) s₁ in
      let (address, built, s₃) = bind-some site.clearbook _ (loan_id, fact_id) s₂ in
      let same : id ≡ fact_id = cc in
      record {
        loan = l;
        originator = o;
        params = p;
        now = now;
        found = found;
        owned = owned;
        dated = dated;
        cited = cc;
        named = cc;
        passed = subst (λ i. (evaluate c.seen l o p now i).would_succeed ≡ true) same (cc);
      }

  with_click-IsPreviewed :
      (past : List Click) (args : Option (ℕ × Text))
      → on_submit site c ≡ args
      → IsOffered site c
      → All IsPreviewed past
      → All IsPreviewed (with_click args c past)
  with_click-IsPreviewed past none e o h = h
  with_click-IsPreviewed past (some (loan_id, fact_id)) e o h =
      (click-IsPreviewed loan_id fact_id o e, h)

-- Every transaction that the wallet was ever asked for had been previewed with the same arguments.
pub Reach-IsPreviewed :
    (site : Site) {c : Console} {past : List Click} → Reach site c past → All IsPreviewed past
Reach-IsPreviewed site (Reach.opens loan_in_address seen) = tt
Reach-IsPreviewed site (Reach.chooses i l r e) = Reach-IsPreviewed site r
Reach-IsPreviewed site (Reach.cites text r) = Reach-IsPreviewed site r
Reach-IsPreviewed site (Reach.reads seen r) = Reach-IsPreviewed site r
Reach-IsPreviewed site (Reach.reports wallet r) = Reach-IsPreviewed site r
Reach-IsPreviewed site (Reach.clicks {c} {past} r h) =
    with_click-IsPreviewed site c past (on_submit site c) refl (can_click-IsOffered site c h)
      (Reach-IsPreviewed site r)
