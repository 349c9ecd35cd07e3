-- ===== src/Coverage/Classes.antt =====
-- The classes that a measurement sorts the logs into, and lists of them.

use clearbook.Prelude.{
  ℕ, ◌+◌, ◌≡◌, refl, sym, ap, ◌∙◌, Bool, true, false, Option, none, some, List, [], ◌∷◌, ◌++◌,
  arith, if◌then◌else◌,
}
use clearbook.Text.{Text}
use clearbook.Async.{Settled, resolved}
use clearbook.Ranges.{Span}
use clearbook.Ranges.Cover.{in_span, collect}

-- What becomes of a log: it is committed, stored in the vault, in neither, of a transaction that did
-- not succeed, or not in its receipt.
pub data Class : Type 0 where
  committed vaulted unvaulted reverted absent : Class

abbrev pub is_qualifying : Class → Bool
is_qualifying committed = true
is_qualifying vaulted = true
is_qualifying unvaulted = true
is_qualifying reverted = false
is_qualifying absent = false

abbrev pub is_committed : Class → Bool
is_committed k = elim k [ committed ↦ true | _ ↦ false ]

abbrev pub is_vaulted : Class → Bool
is_vaulted k = elim k [ vaulted ↦ true | _ ↦ false ]

abbrev pub is_unvaulted : Class → Bool
is_unvaulted k = elim k [ unvaulted ↦ true | _ ↦ false ]

abbrev pub is_reverted : Class → Bool
is_reverted k = elim k [ reverted ↦ true | _ ↦ false ]

abbrev pub how_many : (Class → Bool) → List Class → ℕ
how_many p [] = 0
how_many p (k ∷ ks) = (if p k then 1 else 0) + how_many p ks

pub how_many-append :
    (p : Class → Bool) (ks ls : List Class) → how_many p (ks ++ ls) ≡ how_many p ks + how_many p ls
how_many-append p [] ls = omega arith
how_many-append p (k ∷ ks) ls = omega (arith, how_many-append p ks ls)

abbrev pub flat : {A B : Type 0} → (A → List B) → List A → List B
flat f [] = []
flat f (x ∷ xs) = f x ++ flat f xs

pub append_assoc : {A : Type 0} (xs ys zs : List A) → (xs ++ ys) ++ zs ≡ xs ++ (ys ++ zs)
append_assoc [] ys zs = refl
append_assoc (x ∷ xs) ys zs = ap (◌∷◌ x) (append_assoc xs ys zs)

pub flat-append :
    {A B : Type 0} (f : A → List B) (xs ys : List A) → flat f (xs ++ ys) ≡ flat f xs ++ flat f ys
flat-append f [] ys = refl
flat-append f (x ∷ xs) ys =
    ap (◌++◌ (f x)) (flat-append f xs ys) ∙ sym (append_assoc (f x) (flat f xs) (flat f ys))

pub flat-collect :
    {A B : Type 0} (f : A → List B) (chain : ℕ → List A) (l : List Span)
    → flat (λ span. flat f (in_span chain span.first span.last)) l ≡ flat f (collect chain l)
flat-collect f chain [] = refl
flat-collect f chain (span ∷ l) =
    ap (◌++◌ (flat f (in_span chain span.first span.last))) (flat-collect f chain l)
    ∙ sym (flat-append f (in_span chain span.first span.last) (collect chain l))

-- The vault's answer, if there is a vault to ask.
abbrev pub in_vault : Option (Text → Settled Text Bool) → (Text → Bool) → Text → Bool
in_vault none holds id = false
in_vault (some vault_exists) holds id = holds id

abbrev pub VaultHolds : Option (Text → Settled Text Bool) → (Text → Bool) → Type 0
VaultHolds none holds = Unit
VaultHolds (some vault_exists) holds = (id : Text) → vault_exists id ≡ resolved (holds id)
