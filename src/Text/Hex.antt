-- ===== src/Text/Hex.antt =====
-- Hexadecimal strings such as addresses and identifiers, and the numbers that they stand for. Two
-- hexadecimal strings of one length stand for one number exactly when they agree in lower case.
use clearbook.Prelude.{
  false, ◌==◌, ℕ, every, ◌+◌, ◌-◌, ◌*◌, ◌<◌, ◌≡◌, ◌↔◌, refl, ap, Bool, true, ◌&&◌, ◌||◌, [], ◌∷◌,
  arith, leb, if◌then◌else◌, length, All,
}
use clearbook.Text.Base.{Text, to_lower_case, lower_unit, text_eq, text_eq_iff, same_ignoring_case}

unfoldable pub is_digit : ℕ → Bool
is_digit c = leb b'0' c && leb c b'9'

-- [0-9a-fA-F]
unfoldable pub is_hex : ℕ → Bool
unfolding is_digit
is_hex c = is_digit c || (leb b'a' c && leb c b'f') || (leb b'A' c && leb c b'F')

-- The value of one digit.
unfoldable pub digit : ℕ → ℕ
unfolding is_digit
digit c = if is_digit c then c - 48 else if leb b'a' c then c - 87 else c - 55

-- Reading the digits from the left, from the value read so far.
unfoldable pub hex_from : ℕ → Text → ℕ
hex_from acc [] = acc
hex_from acc (c ∷ cs) = hex_from (acc * 16 + digit c) cs

-- BigInt(`0x${digits}`)
unfoldable pub hex_value : Text → ℕ
hex_value = hex_from 0

abbrev pub AllHex : Text → Type 0
AllHex = All (λ c. is_hex c ≡ true)

digit-lt : (c : ℕ) → is_hex c ≡ true → digit c < 16
unfolding is_hex digit
digit-lt c h = ground arith

digit-inj :
    (c d : ℕ) → is_hex c ≡ true → is_hex d ≡ true → digit c ≡ digit d → lower_unit c ≡ lower_unit d
unfolding is_hex digit lower_unit
digit-inj c d hc hd e = ground arith

digit-lower_unit :
    (c d : ℕ) → is_hex c ≡ true → is_hex d ≡ true → lower_unit c ≡ lower_unit d → digit c ≡ digit d
unfolding is_hex digit lower_unit
digit-lower_unit c d hc hd e = ground arith

hex_from-inj :
    (x y : ℕ) (a b : Text)
    → AllHex a
    → AllHex b
    → length a ≡ length b
    → hex_from x a ≡ hex_from y b
    → (x ≡ y) × (to_lower_case a ≡ to_lower_case b)
unfolding hex_from to_lower_case
hex_from-inj x y [] [] ha hb l e = (e, refl)
hex_from-inj x y [] (d ∷ b) ha hb l e = absurd (omega arith)
hex_from-inj x y (c ∷ a) [] ha hb l e = absurd (omega arith)
hex_from-inj x y (c ∷ a) (d ∷ b) ha hb l e =
    let r = hex_from-inj (x * 16 + digit c) (y * 16 + digit d) a b ha.1 hb.1 (omega arith) e in
    let same : digit c ≡ digit d = omega (arith, r.0, digit-lt c ha.0, digit-lt d hb.0) in
    (omega (arith, r.0, digit-lt c ha.0, digit-lt d hb.0), cc (digit-inj c d ha.0 hb.0 same, r.1))

hex_from-lower :
    (x : ℕ) (a b : Text)
    → AllHex a
    → AllHex b
    → to_lower_case a ≡ to_lower_case b
    → hex_from x a ≡ hex_from x b
unfolding hex_from to_lower_case
hex_from-lower x [] [] ha hb e = refl
hex_from-lower x [] (d ∷ b) ha hb e = cc
hex_from-lower x (c ∷ a) [] ha hb e = cc
hex_from-lower x (c ∷ a) (d ∷ b) ha hb e =
    let same : lower_unit c ≡ lower_unit d = cc in
    let rest : to_lower_case a ≡ to_lower_case b = unfold to_lower_case in cc in
    rw (digit-lower_unit c d ha.0 hb.0 same) (hex_from-lower (x * 16 + digit d) a b ha.1 hb.1 rest)

-- A string `0x` and n hexadecimal digits: 40 for an address, 64 for an identifier or a hash.
abbrev pub IsHexString : ℕ → Text → Type 0
IsHexString n (p ∷ q ∷ cs) = (p ≡ b'0') × (q ≡ b'x') × AllHex cs × (length cs ≡ n)
IsHexString n (p ∷ []) = ⊥
IsHexString n [] = ⊥

-- The number that such a string stands for: the `address` or `bytes32` of the contract.
unfoldable pub hex_string_value : Text → ℕ
hex_string_value (p ∷ q ∷ cs) = hex_value cs
hex_string_value (p ∷ []) = 0
hex_string_value [] = 0

lower-hex_string_value :
    (n : ℕ) (a b : Text)
    → IsHexString n a
    → IsHexString n b
    → to_lower_case a ≡ to_lower_case b
    → hex_string_value a ≡ hex_string_value b
unfolding hex_string_value hex_value to_lower_case
lower-hex_string_value n (p ∷ q ∷ a) (p' ∷ q' ∷ b) ha hb h = hex_from-lower 0 a b ha.2 hb.2 (cc)
lower-hex_string_value n (p ∷ []) b ha hb h = absurd ha
lower-hex_string_value n [] b ha hb h = absurd ha
lower-hex_string_value n (p ∷ q ∷ a) (p' ∷ []) ha hb h = absurd hb
lower-hex_string_value n (p ∷ q ∷ a) [] ha hb h = absurd hb

hex_string_value-inj :
    (n : ℕ) (a b : Text)
    → IsHexString n a
    → IsHexString n b
    → hex_string_value a ≡ hex_string_value b
    → to_lower_case a ≡ to_lower_case b
unfolding hex_string_value hex_value to_lower_case
hex_string_value-inj n (p ∷ q ∷ a) (p' ∷ q' ∷ b) ha hb h =
    cc (ha.0, hb.0, ha.1, hb.1, (hex_from-inj 0 0 a b ha.2 hb.2 (omega arith) h).1)
hex_string_value-inj n (p ∷ []) b ha hb h = absurd ha
hex_string_value-inj n [] b ha hb h = absurd ha
hex_string_value-inj n (p ∷ q ∷ a) (p' ∷ []) ha hb h = absurd hb
hex_string_value-inj n (p ∷ q ∷ a) [] ha hb h = absurd hb

-- Comparing addresses without regard to case compares the numbers that they stand for.
pub same_ignoring_case_iff :
    (n : ℕ) (a b : Text)
    → IsHexString n a
    → IsHexString n b
    → (same_ignoring_case a b ≡ true) ↔ (hex_string_value a ≡ hex_string_value b)
unfolding same_ignoring_case
same_ignoring_case_iff n a b ha hb = (
  λ h. lower-hex_string_value n a b ha hb ((text_eq_iff _ _).0 h),
  λ e. (text_eq_iff _ _).1 (hex_string_value-inj n a b ha hb e),
)

-- A string in the form that the node returns for `bytes32`: in lower case.
abbrev pub IsCanonical : ℕ → Text → Type 0
IsCanonical n a = IsHexString n a × (to_lower_case a ≡ a)

-- On canonical strings the plain comparison is enough.
pub text_eq-value_iff :
    (n : ℕ) (a b : Text)
    → IsCanonical n a
    → IsCanonical n b
    → (text_eq a b ≡ true) ↔ (hex_string_value a ≡ hex_string_value b)
text_eq-value_iff n a b ha hb = (
  λ h. ap hex_string_value ((text_eq_iff a b).0 h),
  λ e. (text_eq_iff a b).1 (cc (ha.1, hb.1, hex_string_value-inj n a b ha.0 hb.0 e)),
)

-- A string that was tested unit by unit holds hexadecimal digits only.
pub AllHex-every : (cs : Text) → every is_hex cs ≡ true → AllHex cs
AllHex-every [] h = tt
AllHex-every (c ∷ cs) h = (ground arith, AllHex-every cs (ground arith))

-- /^0x[0-9a-fA-F]{64}$/.test(text)
unfoldable pub is_hash : Text → Bool
unfolding is_hex
is_hash (p ∷ q ∷ digits) =
    (p == b'0') && (q == b'x') && every is_hex digits && (length digits == 64)
is_hash (p ∷ []) = false
is_hash [] = false
