-- ===== src/Text/Assoc.antt =====
-- `Map`, `Record` and `Set` with text keys, as association lists in insertion order: writing a key
-- that is there replaces its value in place, and writing a new one adds it at the end.
use clearbook.Prelude.{
  ◌≡◌, refl, Bool, true, false, Option, none, some, List, [], ◌∷◌, arith, if◌then◌else◌,
}
use clearbook.Text.Base.{Text, text_eq, text_eq_iff, text_eq_refl}

abbrev pub Assoc {ℓ} : Type ℓ → Type ℓ
Assoc V = List (Text × V)

module _ {ℓ} {V : Type ℓ} where
  -- m.get(k)
  unfoldable pub lookup : Text → Assoc V → Option V
  lookup k [] = none
  lookup k ((j, v) ∷ m) = if text_eq j k then some v else lookup k m

  -- m.set(k, v)
  unfoldable pub insert : Text → V → Assoc V → Assoc V
  insert k v [] = (k, v) ∷ []
  insert k v ((j, w) ∷ m) = if text_eq j k then (j, v) ∷ m else (j, w) ∷ insert k v m

  pub lookup-insert :
      (k j : Text) (v : V) (m : Assoc V)
      → lookup j (insert k v m) ≡ (if text_eq k j then some v else lookup j m)
  unfolding lookup insert
  lookup-insert k j v [] = refl
  lookup-insert k j v ((i, w) ∷ m) =
      ground (arith, text_eq_iff k j, text_eq_iff i k, text_eq_iff i j, lookup-insert k j v m)

  pub lookup-insert_self : (k : Text) (v : V) (m : Assoc V) → lookup k (insert k v m) ≡ some v
  lookup-insert_self k v m = simp (lookup-insert, text_eq_refl)

  -- Writing the value that a key has changes nothing.
  pub insert-lookup : (k : Text) (v : V) (m : Assoc V) → lookup k m ≡ some v → insert k v m ≡ m
  unfolding lookup insert
  insert-lookup k v [] h = cc
  insert-lookup k v ((j, w) ∷ m) h = ground (arith, insert-lookup k v m)

  pub insert-insert : (k : Text) (v w : V) (m : Assoc V) → insert k v (insert k w m) ≡ insert k v m
  unfolding insert
  insert-insert k v w [] = ground (arith, text_eq_refl k)
  insert-insert k v w ((j, u) ∷ m) = ground (arith, insert-insert k v w m)

-- A set of texts: s.has(k), s.add(k).
abbrev pub TextSet : Type 0
TextSet = List Text

unfoldable pub has : Text → TextSet → Bool
has k [] = false
has k (j ∷ s) = if text_eq j k then true else has k s

unfoldable pub add : Text → TextSet → TextSet
unfolding has
add k s = if has k s then s else k ∷ s

pub has-add : (k j : Text) (s : TextSet) → has j (add k s) ≡ (if text_eq k j then true else has j s)
unfolding has add
has-add k j s = ground (arith, text_eq_iff k j)
