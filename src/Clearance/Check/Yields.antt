-- ===== src/Clearance/Check/Yields.antt =====
-- What a check returns has a property: one rule for each way to build a check.
use clearbook.Prelude.{◌≡◌, refl, Bool, true, false, List, [], ◌∷◌, if◌then◌else◌}
use clearbook.Text.{Text}
use clearbook.Async.{Settled, resolved, rejected, pure, after}
use clearbook.Clearance.Legs.{TransferLeg}
use clearbook.Clearance.Check.{ClearanceStep, Check, ask, await, reporting, ask_all}

-- What the method returns has the property, from whatever steps it starts.
pub record Yields {A : Type 0} (P : A → Type 0) (m : Check A) : Type 0 where
  pub yield : (steps : List _) (a : A) → (m steps).0 ≡ resolved a → P a

module _ {A : Type 0} {P : A → Type 0} where
  pub Yields-pure : (a : A) → P a → Yields P (pure a)
  Yields-pure a h = record { yield = λ steps b e. let same : b ≡ a = cc in rw same h }

  pub Yields-if :
      (b : Bool) (m n : Check A)
      → (b ≡ true → Yields P m)
      → (b ≡ false → Yields P n)
      → Yields P (if b then m else n)
  Yields-if true m n p q = p refl
  Yields-if false m n p q = q refl

module _ {A B : Type 0} {P : B → Type 0} where
  pub followed :
      (f : A → Check B) (r : Settled Text A) (steps : List _) (b : B)
      → ((a : A) → r ≡ resolved a → Yields P (f a))
      → (after f r steps).0 ≡ resolved b
      → P b
  followed f (resolved a) steps b k e = (k a refl).yield steps b e
  followed f (rejected x) steps b k e = cc

  pub Yields-await :
      (m : Check A) (f : A → Check B) {Q : A → Type 0}
      → Yields Q m
      → ((a : A) → Q a → Yields P (f a))
      → Yields P (await m f)
  unfolding await
  Yields-await m f h k = record {
    yield = λ steps b e. followed f (m steps).0 (m steps).1 b (λ a r. k a (h.yield steps a r)) e;
  }

pub Yields-reporting :
    {B : Type 0} {P : B → Type 0} (step : ClearanceStep) (m : Check B)
    → Yields P m
    → Yields P (reporting step m)
unfolding reporting
Yields-reporting step m h = record { yield = λ steps b e. h.yield (step ∷ steps) b e }

pub Yields-ask : {A : Type 0} (r : Settled Text A) → Yields (λ a. r ≡ resolved a) (ask r)
Yields-ask r = record { yield = λ steps a e. e }

-- The answers to the calls on the legs, in their order.
abbrev pub Answers : {A : Type 0} → (Text → Settled Text A) → List TransferLeg → List A → Type 0
Answers f [] [] = Unit
Answers f (leg ∷ legs) (x ∷ xs) = (f leg.fact_id ≡ resolved x) × Answers f legs xs
Answers f [] (x ∷ xs) = ⊥
Answers f (leg ∷ legs) [] = ⊥

pub ask_all-Answers :
    {A : Type 0} (f : Text → Settled Text A) (legs : List TransferLeg)
    → Yields (Answers f legs) (ask_all f legs)
unfolding ask_all
ask_all-Answers f [] = Yields-pure _ tt
ask_all-Answers f (leg ∷ legs) =
    Yields-await _ _ (Yields-ask (f leg.fact_id))
      λ a h. Yields-await _ _ (ask_all-Answers f legs) λ rest k. Yields-pure _ (h, k)
