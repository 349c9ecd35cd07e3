-- ===== src/Text/Base.antt =====
-- The type of texts, comparison, lower case, prefixes and substrings.
use Prim.Native.Char.{code}
use Prim.Native.String.{String}
use clearbook.Prelude.{
  ℕ, ◌+◌, ◌≡◌, ◌≢◌, ◌↔◌, refl, Bool, true, false, ◌&&◌, ◌||◌, List, [], ◌∷◌, map, arith, leb, ◌==◌,
  if◌then◌else◌,
}

abbrev pub Text : Type 0
Text = List ℕ

-- The code units of a literal.
abbrev pub codes : String → Text
codes String.[] = []
codes (String.◌∷◌ c s) = code c ∷ codes s

-- a === b
unfoldable pub text_eq : Text → Text → Bool
text_eq [] [] = true
text_eq (x ∷ a) (y ∷ b) = (x == y) && text_eq a b
text_eq _ _ = false

pub text_eq_iff : (a b : Text) → (text_eq a b ≡ true) ↔ (a ≡ b)
unfolding text_eq
text_eq_iff [] [] = ground arith
text_eq_iff [] (y ∷ b) = ground arith
text_eq_iff (x ∷ a) [] = ground arith
text_eq_iff (x ∷ a) (y ∷ b) = ground (arith, text_eq_iff a b)

pub text_eq_refl : (a : Text) → text_eq a a ≡ true
text_eq_refl a = (text_eq_iff a a).1 refl

pub text_eq-false : (a b : Text) → a ≢ b → text_eq a b ≡ false
text_eq-false a b h = ground (arith, text_eq_iff a b)

-- One unit in lower case.
unfoldable pub lower_unit : ℕ → ℕ
lower_unit c = if leb b'A' c && leb c b'Z' then c + 32 else c

-- a.toLowerCase()
unfoldable pub to_lower_case : Text → Text
to_lower_case = map lower_unit

lower_unit_idem : (c : ℕ) → lower_unit (lower_unit c) ≡ lower_unit c
unfolding lower_unit
lower_unit_idem c = ground arith

pub to_lower_case_idem : (a : Text) → to_lower_case (to_lower_case a) ≡ to_lower_case a
unfolding to_lower_case
to_lower_case_idem [] = refl
to_lower_case_idem (c ∷ a) = ground (arith, lower_unit_idem c, to_lower_case_idem a)

-- a.toLowerCase() === b.toLowerCase()
unfoldable pub same_ignoring_case : Text → Text → Bool
same_ignoring_case a b = text_eq (to_lower_case a) (to_lower_case b)

-- a.startsWith(p)
unfoldable pub starts_with : Text → Text → Bool
starts_with a [] = true
starts_with [] (y ∷ p) = false
starts_with (x ∷ a) (y ∷ p) = (x == y) && starts_with a p

-- a.includes(p)
unfoldable pub includes : Text → Text → Bool
unfolding starts_with
includes [] p = starts_with [] p
includes (x ∷ a) p = starts_with (x ∷ a) p || includes a p
