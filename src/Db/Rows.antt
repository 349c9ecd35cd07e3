-- ===== src/Db/Rows.antt =====
-- The rows of the facts table: looking one up after a write, and the constraints that writes keep.
use clearbook.Prelude.{
  ℕ, ◌≡◌, ◌≢◌, refl, ◌∙◌, false, Option, none, some, List, [], ◌∷◌, arith, ◌==◌, exists, All,
  All-imp, All-zip, exists-eq-false, exists-All, Bool-cases, inl, inr,
}
use mathlib.Core.Path.{subst}
use clearbook.Text.{Text, text_eq, text_eq_iff}
use clearbook.Db.{FactRow, conflicts, same_key, same_number, same_text, row, replace_row}

-- No two rows break a constraint.
abbrev pub IsConsistent : List FactRow → Type 0
IsConsistent rows = All (λ a. All (λ b. conflicts a b ≡ false) rows) rows

pub row-All :
    (P : FactRow → Type 0) (id : ℕ) (rows : List FactRow) (r : FactRow)
    → row id rows ≡ some r
    → All P rows
    → P r
row-All P id [] r e h = cc
row-All P id (x ∷ rows) r e h = elim (Bool-cases (x.id == id)) [
  | inl hit ↦ let found : some x ≡ some r = rw hit at e in let same : x ≡ r = cc in subst P same h.0
  | inr miss ↦ row-All P id rows r (rw miss at e) h.1
]

pub row_id : (id : ℕ) (rows : List FactRow) (r : FactRow) → row id rows ≡ some r → r.id ≡ id
row_id id [] r e = cc
row_id id (x ∷ rows) r e = ground (arith, row_id id rows r)

pub row-replace_self :
    (id : ℕ) (r old : FactRow) (rows : List FactRow)
    → row id rows ≡ some old
    → r.id ≡ id
    → row id (replace_row id r rows) ≡ some r
row-replace_self id r old [] e h = cc
row-replace_self id r old (x ∷ rows) e h = ground (arith, row-replace_self id r old rows)

pub row-replace_ne :
    (id j : ℕ) (r : FactRow) (rows : List FactRow)
    → r.id ≡ id
    → j ≢ id
    → row j (replace_row id r rows) ≡ row j rows
row-replace_ne id j r [] h n = refl
row-replace_ne id j r (x ∷ rows) h n = ground (arith, row-replace_ne id j r rows h n)

replace-All :
    (P : FactRow → Type 0) (id : ℕ) (r : FactRow) (rows : List FactRow)
    → P r
    → All P rows
    → All P (replace_row id r rows)
replace-All P id r [] p h = tt
replace-All P id r (x ∷ rows) p h = elim (Bool-cases (x.id == id)) [
  | inl hit ↦ rw hit (p, h.1)
  | inr miss ↦ rw miss (h.0, replace-All P id r rows p h.1)
]

same_number_comm : (a b : Option ℕ) → same_number a b ≡ same_number b a
same_number_comm none none = refl
same_number_comm none (some b) = refl
same_number_comm (some a) none = refl
same_number_comm (some a) (some b) = ground arith

text_eq_comm : (a b : Text) → text_eq a b ≡ text_eq b a
text_eq_comm a b = ground (arith, text_eq_iff a b, text_eq_iff b a)

same_text_comm : (a b : Option Text) → same_text a b ≡ same_text b a
same_text_comm none none = refl
same_text_comm none (some b) = refl
same_text_comm (some a) none = refl
same_text_comm (some a) (some b) = text_eq_comm a b

eq_comm : (a b : ℕ) → (a == b) ≡ (b == a)
eq_comm a b = ground arith

pub conflicts_comm : (a b : FactRow) → conflicts a b ≡ conflicts b a
unfolding conflicts same_key
conflicts_comm a b = cc (
  eq_comm a.id b.id,
  eq_comm a.chain_key b.chain_key,
  eq_comm a.block_height b.block_height,
  eq_comm a.log_index b.log_index,
  same_number_comm a.tx_index b.tx_index,
  same_text_comm a.fact_id b.fact_id,
)

pub conflicts_self : (a : FactRow) → conflicts a a ≡ false
unfolding conflicts
conflicts_self a = ground arith

pub replace-IsConsistent :
    (id : ℕ) (r : FactRow) (rows : List FactRow)
    → IsConsistent rows
    → exists (conflicts r) rows ≡ false
    → IsConsistent (replace_row id r rows)
replace-IsConsistent id r rows c e =
    let free : All (λ b. conflicts r b ≡ false) rows = exists-All (conflicts r) rows e in
    replace-All (λ a. All (λ b. conflicts a b ≡ false) (replace_row id r rows)) id r rows
      (replace-All (λ b. conflicts r b ≡ false) id r rows (conflicts_self r) free)
      (All-imp _ _ rows
        (λ a both.
          replace-All (λ b. conflicts a b ≡ false) id r rows (conflicts_comm a r ∙ both.1) both.0)
        (All-zip _ _ rows c free))

-- Changing what no constraint reads.
pub conflicts-same :
    (a b x : FactRow)
    → a.id ≡ b.id
    → a.chain_key ≡ b.chain_key
    → a.block_height ≡ b.block_height
    → a.tx_index ≡ b.tx_index
    → a.log_index ≡ b.log_index
    → a.fact_id ≡ b.fact_id
    → conflicts a x ≡ conflicts b x
unfolding conflicts same_key
conflicts-same a b x p q r s t u = cc

-- A row update that keeps the key and the identifiers is never refused.
pub no_conflict :
    (change : FactRow → FactRow) (id : ℕ) (rows : List FactRow) (r : FactRow)
    → ((x : FactRow) → conflicts (change r) x ≡ conflicts r x)
    → IsConsistent rows
    → row id rows ≡ some r
    → exists (conflicts (change r)) rows ≡ false
no_conflict change id rows r same c e =
    let free : All (λ b. conflicts r b ≡ false) rows =
      row-All (λ a. All (λ b. conflicts a b ≡ false) rows) id rows r e c in
    exists-eq-false (conflicts (change r)) rows (
      All-imp (λ b. conflicts r b ≡ false) (λ b. conflicts (change r) b ≡ false) rows
        (λ b h. same b ∙ h) free)
