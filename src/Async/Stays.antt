-- ===== src/Async/Stays.antt =====
-- Methods that do not throw on an object with a property, and keep it: one rule for each way to build a
-- method.
use clearbook.Prelude.{refl, Bool, true, false, if◌then◌else◌}
use clearbook.Async.{Settled, resolved, rejected, Exec, pure, ◌>>=◌, ◌>>◌, after}
use clearbook.Async.Returns.{Resolves}

pub record Stays {E S A : Type 0} (P : S → Type 0) (m : Exec E S A) : Type 0 where
  pub stays : (s : S) → P s → Resolves (m s).0 × P (m s).1

module _ {E S A : Type 0} {P : S → Type 0} where
  pub Stays-pure : (a : A) → Stays P (pure {E = E} {S = S} a)
  Stays-pure a = record { stays = λ s h. ((a, refl), h) }

  pub Stays-if :
      (b : Bool) (m n : Exec E S A) → Stays P m → Stays P n → Stays P (if b then m else n)
  Stays-if true m n p q = p
  Stays-if false m n p q = q

module _ {E S A B : Type 0} {P : S → Type 0} where
  followed :
      (f : A → Exec E S B) (r : Settled E A) (s : S)
      → ((a : A) → Stays P (f a))
      → Resolves r × P s
      → Resolves (after f r s).0 × P (after f r s).1
  followed f (resolved a) s k (h, p) = (k a).stays s p
  followed f (rejected x) s k ((a, e), p) = cc

  pub Stays-bind :
      (m : Exec E S A) (f : A → Exec E S B)
      → Stays P m
      → ((a : A) → Stays P (f a))
      → Stays P (m >>= f)
  Stays-bind m f p k = record { stays = λ s h. followed f (m s).0 (m s).1 k (p.stays s h) }

  pub Stays-then : (m : Exec E S A) (n : Exec E S B) → Stays P m → Stays P n → Stays P (m >> n)
  Stays-then m n p q = record {
    stays = λ s h. followed (λ _. n) (m s).0 (m s).1 (λ _. q) (p.stays s h);
  }
