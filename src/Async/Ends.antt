-- ===== src/Async/Ends.antt =====
-- Methods that keep an invariant and, where they return, end in a state with a further property: one
-- rule for each way to build a method.
use clearbook.Prelude.{◌≡◌, refl, Bool, true, false, if◌then◌else◌}
use clearbook.Async.{Settled, resolved, rejected, Exec, catch, handle, ◌>>=◌, ◌>>◌, after}
use clearbook.Async.Preserves.{Preserves}

pub record Ends {ℓ} {E S A : Type ℓ} (P Q : S → Type ℓ) (m : Exec E S A) : Type ℓ where
  pub kept : (s : S) → P s → P (m s).1
  pub reached : (s : S) (a : A) → P s → (m s).0 ≡ resolved a → Q (m s).1

module _ {ℓ} {E S A : Type ℓ} {P Q : S → Type ℓ} where
  pub Ends-if :
      (b : Bool) (m n : Exec E S A)
      → (b ≡ true → Ends P Q m)
      → (b ≡ false → Ends P Q n)
      → Ends P Q (if b then m else n)
  Ends-if true m n p q = p refl
  Ends-if false m n p q = q refl

  caught-kept :
      (handler : E → Exec E S A) (r : Settled E A) (s : S)
      → ((e : E) → Ends P Q (handler e))
      → P s
      → P (handle handler r s).1
  caught-kept handler (resolved a) s k h = h
  caught-kept handler (rejected e) s k h = (k e).kept s h

  caught-reached :
      (handler : E → Exec E S A) (r : Settled E A) (s : S) (a : A)
      → ((e : E) → Ends P Q (handler e))
      → ((b : A) → r ≡ resolved b → Q s)
      → P s
      → (handle handler r s).0 ≡ resolved a
      → Q (handle handler r s).1
  caught-reached handler (resolved b) s a k q h e = q b refl
  caught-reached handler (rejected x) s a k q h e = (k x).reached s a h e

  pub Ends-catch :
      (m : Exec E S A) (handler : E → Exec E S A)
      → Ends P Q m
      → ((e : E) → Ends P Q (handler e))
      → Ends P Q (catch m handler)
  Ends-catch m handler p k = record {
    kept = λ s h. caught-kept handler (m s).0 (m s).1 k (p.kept s h);
    reached =
        λ s a h. caught-reached handler (m s).0 (m s).1 a k (λ b e. p.reached s b h e) (p.kept s h);
  }

module _ {ℓ} {E S A B : Type ℓ} {P Q : S → Type ℓ} where
  followed-kept :
      (f : A → Exec E S B) (r : Settled E A) (s : S)
      → ((a : A) → Ends P Q (f a))
      → P s
      → P (after f r s).1
  followed-kept f (resolved a) s k h = (k a).kept s h
  followed-kept f (rejected e) s k h = h

  followed-reached :
      (f : A → Exec E S B) (r : Settled E A) (s : S) (b : B)
      → ((a : A) → Ends P Q (f a))
      → P s
      → (after f r s).0 ≡ resolved b
      → Q (after f r s).1
  followed-reached f (resolved a) s b k h e = (k a).reached s b h e
  followed-reached f (rejected x) s b k h e = cc

  pub Ends-bind :
      (m : Exec E S A) (f : A → Exec E S B)
      → Preserves P m
      → ((a : A) → Ends P Q (f a))
      → Ends P Q (m >>= f)
  Ends-bind m f p k = record {
    kept = λ s h. followed-kept f (m s).0 (m s).1 k (p.kept s h);
    reached = λ s b h. followed-reached f (m s).0 (m s).1 b k (p.kept s h);
  }

  pub Ends-then : (m : Exec E S A) (n : Exec E S B) → Preserves P m → Ends P Q n → Ends P Q (m >> n)
  Ends-then m n p k = record {
    kept = λ s h. followed-kept (λ _. n) (m s).0 (m s).1 (λ _. k) (p.kept s h);
    reached = λ s b h. followed-reached (λ _. n) (m s).0 (m s).1 b (λ _. k) (p.kept s h);
  }
