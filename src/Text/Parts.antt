-- ===== src/Text/Parts.antt =====
-- Parts of a string: `trim`, and the part before a separator.
use clearbook.Prelude.{
  is_empty, arith, All, every, ◌≡◌, refl, true, false, List, ℕ, Bool, ◌||◌, ◌&&◌, [], ◌∷◌, ◌++◌,
  leb, ◌==◌, if◌then◌else◌,
}
use clearbook.Text.Base.{Text}

-- WhiteSpace and LineTerminator of the language.
unfoldable pub is_space : ℕ → Bool
is_space c =
    (leb 9 c && leb c 13)
    || (c == 32)
    || (c == 160)
    || (c == 5760)
    || (leb 8192 c && leb c 8202)
    || (c == 8232)
    || (c == 8233)
    || (c == 8239)
    || (c == 8287)
    || (c == 12288)
    || (c == 65279)

unfoldable pub trim_start : Text → Text
unfolding is_space
trim_start [] = []
trim_start (c ∷ cs) = let rest = trim_start cs in if is_space c then rest else c ∷ cs

unfoldable pub trim_end : Text → Text
unfolding is_space
trim_end [] = []
trim_end (c ∷ cs) = let rest = trim_end cs in if is_space c && is_empty rest then [] else c ∷ rest

-- a.trim()
unfoldable pub trim : Text → Text
unfolding trim_start trim_end
trim a = trim_end (trim_start a)

-- a.split(separator)[0]
unfoldable pub before_unit : ℕ → Text → Text
before_unit separator [] = []
before_unit separator (c ∷ cs) =
    let rest = before_unit separator cs in if c == separator then [] else c ∷ rest

-- a.split(separator), for a separator of one unit.
abbrev pub with_first : ℕ → List Text → List Text
with_first c [] = (c ∷ []) ∷ []
with_first c (part ∷ parts) = (c ∷ part) ∷ parts

unfoldable pub split_unit : ℕ → Text → List Text
split_unit separator [] = [] ∷ []
split_unit separator (c ∷ cs) =
    let rest = split_unit separator cs in if c == separator then [] ∷ rest else with_first c rest

-- A part without the separator, before another one and at the end.
pub split_unit-before :
    (separator : ℕ) (part rest : Text)
    → All (λ c. (c == separator) ≡ false) part
    → split_unit separator (part ++ separator ∷ rest) ≡ part ∷ split_unit separator rest
unfolding split_unit
split_unit-before separator [] rest h = ground arith
split_unit-before separator (c ∷ part) rest h =
    rw (h.0, split_unit-before separator part rest h.1) refl

pub split_unit-last :
    (separator : ℕ) (part : Text)
    → All (λ c. (c == separator) ≡ false) part
    → split_unit separator part ≡ part ∷ []
unfolding split_unit
split_unit-last separator [] h = refl
split_unit-last separator (c ∷ part) h = rw (h.0, split_unit-last separator part h.1) refl

trim_start-blank : (a : Text) → every is_space a ≡ true → trim_start a ≡ []
unfolding trim_start
trim_start-blank [] h = refl
trim_start-blank (c ∷ a) h = ground (arith, trim_start-blank a)

-- trim() of a string of spaces is empty.
pub trim-blank : (a : Text) → every is_space a ≡ true → trim a ≡ []
unfolding trim
trim-blank a h = rw (trim_start-blank a h) (unfold trim_end in refl)
