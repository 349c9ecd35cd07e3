-- ===== src/Challenger/Sweep/Tries.antt =====
-- The loop over the candidates of one claim, as a step relation.
use clearbook.Prelude.{
  ◌≡◌, refl, Bool, true, false, Option, none, some, List, [], ◌∷◌, Bool-cases, inl, inr,
}
use clearbook.Text.{Text}
use clearbook.Async.{Settled, resolved, rejected, after}
use clearbook.Challenger.Filter.{Fact, OpenClaim}
use clearbook.Challenger.Node.{Node, Challenger}
use clearbook.Challenger.Act.{Outcome, act}
use clearbook.Challenger.Act.Refusal.{is_confirmed, Tried, act-Tried}
use clearbook.Challenger.Sweep.{go_on, act_on}

-- From `s`, with the candidates left, to the outcomes and the object at the end: the candidates are
-- tried in order, each on the object that the one before left, and after a confirmed challenge nothing
-- is done any more, with the object or with a call.
pub data Tries (node : Node) (strict : Bool) (claim : OpenClaim)
    : List Fact → Challenger → List Outcome → Challenger → Type 0 where
  exhausts : (s : Challenger) → Tries node strict claim [] s [] s
  passes_over :
      {f : Fact} {l : List Fact} {s t u : Challenger} {os : List Outcome}
      → act node strict claim f s ≡ (resolved none, t)
      → Tries node strict claim l t os u
      → Tries node strict claim (f ∷ l) s os u
  goes_on :
      {f : Fact} {l : List Fact} {s t u : Challenger} {o : Outcome} {os : List Outcome}
      → act node strict claim f s ≡ (resolved (some o), t)
      → is_confirmed o ≡ false
      → Tries node strict claim l t os u
      → Tries node strict claim (f ∷ l) s (o ∷ os) u
  stops :
      {f : Fact} {l : List Fact} {s t : Challenger} {o : Outcome}
      → act node strict claim f s ≡ (resolved (some o), t)
      → is_confirmed o ≡ true
      → Tries node strict claim (f ∷ l) s (o ∷ []) t

module _ (node : Node) (strict : Bool) (claim : OpenClaim) where
  -- A run that returns its outcomes, and came to them by the steps.
  abbrev pub Comes : List Fact → Challenger → Settled Text (List Outcome) × Challenger → Type 0
  Comes l s x = (os : List Outcome) × (x.0 ≡ resolved os) × Tries node strict claim l s os x.1

  returns-Tried :
      (f : Fact) (r : Settled Text (Option Outcome)) (s s' : Challenger)
      → Tried node strict claim f r s s'
      → (o : Option Outcome) × (r ≡ resolved o)
  returns-Tried f (rejected e) s s' h = absurd h
  returns-Tried f (resolved o) s s' h = (o, refl)

  -- What follows the attempt at one candidate, whose result is named.
  acted-Comes :
      (f : Fact) (l : List Fact) (s : Challenger) (x : Settled Text (Option Outcome) × Challenger)
      → act node strict claim f s ≡ x
      → (o : Option Outcome) × (x.0 ≡ resolved o)
      → ((t : Challenger) → Comes l t (act_on node strict claim l t))
      → Comes (f ∷ l) s (after (λ o. go_on o (act_on node strict claim l)) x.0 x.1)
  acted-Comes f l s (rejected e, t) at (o, h) k = cc
  acted-Comes f l s (resolved none, t) at h k =
      let (os, returns, run) = k t in (os, returns, Tries.passes_over at run)
  acted-Comes f l s (resolved (some o), t) at h k = elim (Bool-cases (is_confirmed o)) [
    | inl confirmed ↦ rw confirmed (o ∷ [], refl, Tries.stops at confirmed)
    | inr open_still ↦
        let (os, returns, run) = k t in
        rw (open_still, returns) (o ∷ os, refl, Tries.goes_on at open_still run)
  ]

  -- Trying the candidates of one claim never throws; they are tried in order, and after a confirmed
  -- challenge no further candidate is tried, so that the refused pairs, the counters and the calls of
  -- the node are those that the confirmed one left.
  pub act_on-Tries :
      (l : List Fact) (s : Challenger)
      → (os : List Outcome) × ((act_on node strict claim l s).0 ≡ resolved os)
        × Tries node strict claim l s os (act_on node strict claim l s).1
  unfolding act_on
  act_on-Tries [] s = ([], refl, Tries.exhausts s)
  act_on-Tries (f ∷ l) s =
      acted-Comes f l s (act node strict claim f s) refl
        (returns-Tried f _ s _ (act-Tried node strict claim f s)) (act_on-Tries l)
