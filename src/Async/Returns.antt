-- ===== src/Async/Returns.antt =====
-- Methods that never throw: one rule for each way to build a method.
use clearbook.Prelude.{List, [], ◌∷◌, ◌≡◌, refl, Bool, true, false, if◌then◌else◌}
use clearbook.Async.{Settled, resolved, rejected, Exec, pure, modify, ◌>>=◌, ◌>>◌, after, for_each}

abbrev pub Resolves : {E A : Type 0} → Settled E A → Type 0
Resolves {E} {A} r = (a : A) × (r ≡ resolved a)

pub record Returns {E S A : Type 0} (m : Exec E S A) : Type 0 where
  pub result : (s : S) → Resolves (m s).0

module _ {E S A : Type 0} where
  pub Returns-pure : (a : A) → Returns {E = E} {S = S} (pure a)
  Returns-pure a = record { result = λ s. (a, refl) }

  pub Returns-if :
      (b : Bool) (m n : Exec E S A) → Returns m → Returns n → Returns (if b then m else n)
  Returns-if true m n p q = p
  Returns-if false m n p q = q

pub Returns-modify : {E S : Type 0} (f : S → S) → Returns {E = E} (modify f)
Returns-modify f = record { result = λ s. (tt, refl) }

module _ {E S A B : Type 0} where
  followed :
      (f : A → Exec E S B) (r : Settled E A) (s : S)
      → ((a : A) → Returns (f a))
      → Resolves r
      → Resolves (after f r s).0
  followed f (resolved a) s k h = (k a).result s
  followed f (rejected x) s k h = let (a, e) = h in cc

  pub Returns-bind :
      (m : Exec E S A) (f : A → Exec E S B)
      → Returns m
      → ((a : A) → Returns (f a))
      → Returns (m >>= f)
  Returns-bind m f p k = record { result = λ s. followed f (m s).0 (m s).1 k (p.result s) }

  pub Returns-then : (m : Exec E S A) (n : Exec E S B) → Returns m → Returns n → Returns (m >> n)
  Returns-then m n p q = record {
    result = λ s. followed (λ _. n) (m s).0 (m s).1 (λ _. q) (p.result s);
  }

module _ {E S A : Type 0} where
  pub Returns-for_each :
      (body : A → Exec E S (Unit {0})) (xs : List A)
      → ((x : A) → Returns (body x))
      → Returns (for_each body xs)
  Returns-for_each body [] k = Returns-pure tt
  Returns-for_each body (x ∷ xs) k =
      Returns-then (body x) (for_each body xs) (k x) (Returns-for_each body xs k)
