-- ===== src/Async/Leads.antt =====
-- Where a method returns, the object has a property that it need not have on the way: one rule for
-- each way to build a method.
use clearbook.Prelude.{List, [], ◌∷◌, ◌≡◌, refl, Bool, true, false, if◌then◌else◌}
use clearbook.Async.{Settled, resolved, rejected, Exec, pure, modify, ◌>>=◌, ◌>>◌, after, for_each}

-- From an object with `P`, a return of the method leaves one with `Q`.
pub record Leads {E S A : Type 0} (P Q : S → Type 0) (m : Exec E S A) : Type 0 where
  pub lead : (s : S) (a : A) → P s → (m s).0 ≡ resolved a → Q (m s).1

module _ {E S A : Type 0} {P : S → Type 0} where
  pub Leads-pure : (a : A) → Leads {E = E} P P (pure a)
  Leads-pure a = record { lead = λ s b h e. h }

  pub Leads-if :
      {Q : S → Type 0} (b : Bool) (m n : Exec E S A)
      → Leads P Q m
      → Leads P Q n
      → Leads P Q (if b then m else n)
  Leads-if true m n p q = p
  Leads-if false m n p q = q

pub Leads-modify :
    {E S : Type 0} {P Q : S → Type 0} (f : S → S)
    → ((s : S) → P s → Q (f s))
    → Leads {E = E} P Q (modify f)
Leads-modify f h = record { lead = λ s a p e. h s p }

module _ {E S A B : Type 0} {Q R : S → Type 0} where
  followed :
      (f : A → Exec E S B) (r : Settled E A) (s : S) (b : B)
      → ((a : A) → r ≡ resolved a → Q s)
      → ((a : A) → Leads Q R (f a))
      → (after f r s).0 ≡ resolved b
      → R (after f r s).1
  followed f (resolved a) s b q k e = (k a).lead s b (q a refl) e
  followed f (rejected x) s b q k e = cc

module _ {E S A B : Type 0} {P Q R : S → Type 0} where
  pub Leads-bind :
      (m : Exec E S A) (f : A → Exec E S B)
      → Leads P Q m
      → ((a : A) → Leads Q R (f a))
      → Leads P R (m >>= f)
  Leads-bind m f p k = record {
    lead = λ s b h e. followed f (m s).0 (m s).1 b (λ a r. p.lead s a h r) k e;
  }

  pub Leads-then :
      (m : Exec E S A) (n : Exec E S B) → Leads P Q m → Leads Q R n → Leads P R (m >> n)
  Leads-then m n p k = record {
    lead = λ s b h e. followed (λ _. n) (m s).0 (m s).1 b (λ a r. p.lead s a h r) (λ a. k) e;
  }

module _ {E S A : Type 0} {P : S → Type 0} where
  pub Leads-for_each :
      (body : A → Exec E S (Unit {0})) (xs : List A)
      → ((x : A) → Leads P P (body x))
      → Leads P P (for_each body xs)
  Leads-for_each body [] k = Leads-pure tt
  Leads-for_each body (x ∷ xs) k =
      Leads-then (body x) (for_each body xs) (k x) (Leads-for_each body xs k)
