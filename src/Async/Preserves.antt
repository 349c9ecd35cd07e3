-- ===== src/Async/Preserves.antt =====
-- An invariant of the object that a method keeps, whether it returns or throws: one rule for each way
-- to build a method.
use clearbook.Prelude.{List, [], ◌∷◌, ◌≡◌, refl, Bool, true, false, if◌then◌else◌}
use clearbook.Async.{
  Settled, resolved, rejected, Exec, pure, read, catch, handle, ◌>>=◌, ◌>>◌, after, for_each,
}

pub record Preserves {ℓ} {E S A : Type ℓ} (P : S → Type ℓ) (m : Exec E S A) : Type ℓ where
  pub kept : (s : S) → P s → P (m s).1

module _ {ℓ} {E S A : Type ℓ} {P : S → Type ℓ} where
  pub Preserves-pure : (a : A) → Preserves P (pure {E = E} {S = S} a)
  Preserves-pure a = record { kept = λ s h. h }

  pub Preserves-read : (f : S → A) → Preserves P (read {E = E} f)
  Preserves-read f = record { kept = λ s h. h }

  handled :
      (handler : E → Exec E S A) (r : Settled E A) (s : S)
      → ((e : E) → Preserves P (handler e))
      → P s
      → P (handle handler r s).1
  handled handler (resolved a) s k h = h
  handled handler (rejected e) s k h = (k e).kept s h

  pub Preserves-catch :
      (m : Exec E S A) (handler : E → Exec E S A)
      → Preserves P m
      → ((e : E) → Preserves P (handler e))
      → Preserves P (catch m handler)
  Preserves-catch m handler p q = record {
    kept = λ s h. handled handler (m s).0 (m s).1 q (p.kept s h);
  }

  pub Preserves-if :
      (b : Bool) (m n : Exec E S A)
      → (b ≡ true → Preserves P m)
      → (b ≡ false → Preserves P n)
      → Preserves P (if b then m else n)
  Preserves-if true m n p q = p refl
  Preserves-if false m n p q = q refl

module _ {ℓ} {E S A B : Type ℓ} {P : S → Type ℓ} where
  followed :
      (f : A → Exec E S B) (r : Settled E A) (s : S)
      → ((a : A) → Preserves P (f a))
      → P s
      → P (after f r s).1
  followed f (resolved a) s k h = (k a).kept s h
  followed f (rejected e) s k h = h

  pub Preserves-bind :
      (m : Exec E S A) (f : A → Exec E S B)
      → Preserves P m
      → ((a : A) → Preserves P (f a))
      → Preserves P (m >>= f)
  Preserves-bind m f p q = record { kept = λ s h. followed f (m s).0 (m s).1 q (p.kept s h) }

  pub Preserves-then :
      (m : Exec E S A) (n : Exec E S B) → Preserves P m → Preserves P n → Preserves P (m >> n)
  Preserves-then m n p q = record {
    kept = λ s h. followed (λ _. n) (m s).0 (m s).1 (λ _. q) (p.kept s h);
  }

module _ {E S A : Type 0} {P : S → Type 0} where
  pub Preserves-for_each :
      (body : A → Exec E S (Unit {0})) (xs : List A)
      → ((a : A) → Preserves P (body a))
      → Preserves P (for_each body xs)
  Preserves-for_each body [] k = record { kept = λ s h. h }
  Preserves-for_each body (x ∷ xs) k =
      Preserves-then (body x) (for_each body xs) (k x) (Preserves-for_each body xs k)

pub ruleset preserves_rules =
    (Preserves-pure, Preserves-read, Preserves-catch, Preserves-if, Preserves-bind, Preserves-then)
