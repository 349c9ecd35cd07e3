-- ===== src/Examples.antt =====
-- Concrete runs of the model: the data that they share, and one child module per component.
pub mod Filters
pub mod Matches
pub mod Sweeps
pub mod Pipeline
pub mod Tables
pub mod Clearings
pub mod Scans
pub mod Coverages
pub mod Watches
pub mod Projections
pub mod Collisions
pub mod Proxies
pub mod Rounds
pub mod Readings
pub mod Consoles
use clearbook.Prelude.{ℕ, zero, suc, ◌≡◌, refl, [], ◌∷◌, true, every}
use clearbook.Text.{Text, to_lower_case}
use clearbook.Text.Hex.{IsHexString, IsCanonical, is_hex, AllHex-every}

abbrev digits : ℕ → ℕ → Text
digits zero d = []
digits (suc n) d = d ∷ digits n d

-- `0x` and one digit repeated: 40 times for an address, 64 times for an identifier.
abbrev pub address : ℕ → Text
address d = b'0' ∷ b'x' ∷ digits 40 d

abbrev pub fact : ℕ → Text
fact d = b'0' ∷ b'x' ∷ digits 64 d

pub address-IsHexString : (d : ℕ) → every is_hex (digits 40 d) ≡ true → IsHexString 40 (address d)
address-IsHexString d h = (refl, refl, AllHex-every (digits 40 d) h, refl)

pub fact-IsHexString : (d : ℕ) → every is_hex (digits 64 d) ≡ true → IsHexString 64 (fact d)
fact-IsHexString d h = (refl, refl, AllHex-every (digits 64 d) h, refl)

pub fact-IsCanonical :
    (d : ℕ)
    → every is_hex (digits 64 d) ≡ true
    → to_lower_case (fact d) ≡ fact d
    → IsCanonical 64 (fact d)
fact-IsCanonical d h e = (fact-IsHexString d h, e)
