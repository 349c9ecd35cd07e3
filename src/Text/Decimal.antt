-- ===== src/Text/Decimal.antt =====
-- The decimal notation of a number, as `toString` and a template give it, and that it can be read back.
use clearbook.Prelude.{
  ℕ, zero, suc, ◌+◌, ◌*◌, ◌/◌, ◌%◌, ◌<◌, ◌≤◌, ◌-◌, ◌≡◌, refl, ap, [], ◌∷◌, ◌++◌, arith, ltb,
  if◌then◌else◌, All, All-append, Bool-cases, inl, inr, sym, ◌∙◌,
}
use clearbook.Text.Base.{Text}

-- The digits on fuel; a number has no more digits than its value plus one.
unfoldable pub digits_of : ℕ → ℕ → Text
digits_of zero n = []
digits_of (suc fuel) n =
    let more = digits_of fuel (n / 10) in
    if ltb n 10 then (b'0' + n) ∷ [] else more ++ (b'0' + n % 10) ∷ []

unfoldable pub decimal : ℕ → Text
unfolding digits_of
decimal n = digits_of (suc n) n

unfoldable pub read_from : ℕ → Text → ℕ
read_from acc [] = acc
read_from acc (c ∷ cs) = read_from (acc * 10 + (c - b'0')) cs

read_from-append : (acc : ℕ) (a b : Text) → read_from acc (a ++ b) ≡ read_from (read_from acc a) b
unfolding read_from
read_from-append acc [] b = refl
read_from-append acc (c ∷ a) b = read_from-append (acc * 10 + (c - b'0')) a b

read-digits_of : (fuel n : ℕ) → n < fuel → read_from 0 (digits_of fuel n) ≡ n
unfolding digits_of read_from
read-digits_of zero n h = absurd (omega arith)
read-digits_of (suc fuel) n h = elim (Bool-cases (ltb n 10)) [
  | inl small ↦ rw small (omega arith)
  | inr large ↦
      rw (large, read_from-append) (omega (arith, read-digits_of fuel (n / 10) (ground arith)))
]

-- The number can be read back from its notation, so the notation is injective.
pub read-decimal : (n : ℕ) → read_from 0 (decimal n) ≡ n
unfolding decimal
read-decimal n = read-digits_of (suc n) n (omega arith)

pub decimal-inj : (n m : ℕ) → decimal n ≡ decimal m → n ≡ m
decimal-inj n m e = sym (read-decimal n) ∙ ap (read_from 0) e ∙ read-decimal m

-- Every unit of a notation is a digit.
abbrev pub IsDigit : ℕ → Type 0
IsDigit c = (b'0' ≤ c) × (c ≤ b'9')

digits_of-IsDigit : (fuel n : ℕ) → All IsDigit (digits_of fuel n)
unfolding digits_of
digits_of-IsDigit zero n = tt
digits_of-IsDigit (suc fuel) n = elim (Bool-cases (ltb n 10)) [
  | inl small ↦ rw small (ground arith, tt)
  | inr large ↦ rw large (
      All-append IsDigit (digits_of fuel (n / 10)) _ (digits_of-IsDigit fuel (n / 10))
        (omega arith, tt))
]

pub decimal-IsDigit : (n : ℕ) → All IsDigit (decimal n)
unfolding decimal
decimal-IsDigit n = digits_of-IsDigit (suc n) n

-- A separator that is no digit tells two notations from what follows them.
pub separated :
    (c : ℕ) (a b x y : Text)
    → b'9' < c
    → All IsDigit a
    → All IsDigit b
    → a ++ c ∷ x ≡ b ++ c ∷ y
    → (a ≡ b) × (x ≡ y)
separated c [] [] x y h p q e = (refl, (cc))
separated c [] (d ∷ b) x y h p q e = let k : c ≡ d = cc in absurd (omega arith)
separated c (d ∷ a) [] x y h p q e = let k : d ≡ c = cc in absurd (omega arith)
separated c (d ∷ a) (d' ∷ b) x y h p q e =
    let r = separated c a b x y h p.1 q.1 (cc) in (cc r.0, r.1)
