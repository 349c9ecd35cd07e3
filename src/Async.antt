-- ===== src/Async.antt =====
-- Asynchronous methods: a call settles to a value or to what it threw, and the object
-- that the method works on is passed along. `catch` is the handler of a `try` block.
pub mod Preserves
pub mod Ends
pub mod Leads
pub mod Returns
pub mod Stays
use clearbook.Prelude.{List, [], ◌∷◌, ◌≡◌, refl}

pub data Settled {ℓ} (E A : Type ℓ) : Type ℓ where
  resolved : A → Settled E A
  rejected : E → Settled E A

-- A method that throws an `E`, of an object `S`.
abbrev pub Exec {ℓ} : Type ℓ → Type ℓ → Type ℓ → Type ℓ
Exec E S A = S → Settled E A × S

module _ {ℓ} {E S A : Type ℓ} where
  abbrev pub pure : A → Exec E S A
  pure a s = (resolved a, s)

  abbrev pub throw : E → Exec E S A
  throw e s = (rejected e, s)

  -- Read the object.
  abbrev pub read : (S → A) → Exec E S A
  read f s = (resolved (f s), s)

  -- The handler of `try { m } catch (e) { handler(e) }`.
  abbrev pub handle : (E → Exec E S A) → Settled E A → Exec E S A
  handle handler (resolved a) s = (resolved a, s)
  handle handler (rejected e) s = handler e s

  abbrev pub catch : Exec E S A → (E → Exec E S A) → Exec E S A
  catch m handler s = handle handler (m s).0 (m s).1

-- Write the object.
abbrev pub modify : {E S : Type 0} → (S → S) → Exec E S (Unit {0})
modify f s = (resolved tt, f s)

module _ {ℓ} {E S A B : Type ℓ} where
  -- What follows an `await`.
  abbrev pub after : (A → Exec E S B) → Settled E A → Exec E S B
  after f (resolved a) s = f a s
  after f (rejected e) s = (rejected e, s)

  infixl 5 ◌>>=◌ ◌>>◌
  abbrev pub ◌>>=◌ : Exec E S A → (A → Exec E S B) → Exec E S B
  ◌>>=◌ m f s = after f (m s).0 (m s).1

  abbrev pub ◌>>◌ : Exec E S A → Exec E S B → Exec E S B
  ◌>>◌ m k s = after (λ _. k) (m s).0 (m s).1

-- `for (const x of xs) await body(x)`, for a body that gives no value.
abbrev pub for_each : {E S A : Type 0} → (A → Exec E S (Unit {0})) → List A → Exec E S (Unit {0})
for_each body [] = pure tt
for_each body (x ∷ xs) = body x >> for_each body xs
