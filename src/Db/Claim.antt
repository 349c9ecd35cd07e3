-- ===== src/Db/Claim.antt =====
-- What `claimNext` takes: the first rows, in the order of the statement, of those in a wanted state.
use clearbook.Prelude.{
  ◌<◌, ◌≤◌, ◌⊎◌, ℕ, suc, zero, ◌≡◌, refl, Bool, true, false, Bool-cases, inl, inr, min, List, [],
  ◌∷◌, ◌++◌, ap, arith, All, All-imp, length, length-take, take, drop, keep,
}
use mathlib.Core.List.{Perm}
use mathlib.Core.List.Perm
use clearbook.Db.{FactState, FactRow, Db, before, insert_ordered, order_rows, claim_next}

-- By block height and then log index; rows that agree in both may stand in either order.
abbrev pub Precedes : FactRow → FactRow → Type 0
Precedes a b =
    (a.block_height < b.block_height)
    ⊎ ((a.block_height ≡ b.block_height) × (a.log_index ≤ b.log_index))

-- Every row precedes those behind it.
abbrev pub IsOrdered : List FactRow → Type 0
IsOrdered [] = Unit
IsOrdered (r ∷ rows) = All (Precedes r) rows × IsOrdered rows

-- `claimed` is what comes first of `rows`, and no more than `limit` of it.
abbrev pub IsFirst : ℕ → List FactRow → List FactRow → Type 0
IsFirst limit rows claimed =
    (length claimed ≡ min limit (length rows))
    × ((left : List FactRow) × Perm (claimed ++ left) rows × IsOrdered (claimed ++ left))

Precedes-trans : (a b c : FactRow) → Precedes a b → Precedes b c → Precedes a c
Precedes-trans a b c = ground arith

before-Precedes : (a b : FactRow) → before a b ≡ true → Precedes a b
before-Precedes a b = ground arith

not_before-Precedes : (a b : FactRow) → before a b ≡ false → Precedes b a
not_before-Precedes a b = ground arith

insert_ordered-All :
    (P : FactRow → Type 0) (r : FactRow) (rows : List FactRow)
    → P r
    → All P rows
    → All P (insert_ordered r rows)
insert_ordered-All P r [] h k = (h, tt)
insert_ordered-All P r (x ∷ rows) h k = elim (Bool-cases (before r x)) [
  | inl first ↦ rw first (h, k)
  | inr later ↦ rw later (k.0, insert_ordered-All P r rows h k.1)
]

insert_ordered-IsOrdered :
    (r : FactRow) (rows : List FactRow) → IsOrdered rows → IsOrdered (insert_ordered r rows)
insert_ordered-IsOrdered r [] h = (tt, tt)
insert_ordered-IsOrdered r (x ∷ rows) h = elim (Bool-cases (before r x)) [
  | inl first ↦
      let ahead = before-Precedes r x first in
      rw first ((ahead, All-imp _ _ rows (λ s. Precedes-trans r x s ahead) h.0), h)
  | inr later ↦ rw later (
    insert_ordered-All (Precedes x) r rows (not_before-Precedes r x later) h.0,
    insert_ordered-IsOrdered r rows h.1,
  )
]

order_rows-IsOrdered : (rows : List FactRow) → IsOrdered (order_rows rows)
unfolding order_rows
order_rows-IsOrdered [] = tt
order_rows-IsOrdered (r ∷ rows) =
    insert_ordered-IsOrdered r (order_rows rows) (order_rows-IsOrdered rows)

insert_ordered-perm : (r : FactRow) (rows : List FactRow) → Perm (insert_ordered r rows) (r ∷ rows)
insert_ordered-perm r [] = Perm.rfl
insert_ordered-perm r (x ∷ rows) = elim (Bool-cases (before r x)) [
  | inl first ↦ rw first Perm.rfl
  | inr later ↦
      rw later (Perm.trans (Perm.cons x (insert_ordered-perm r rows)) (Perm.swap r x rows))
]

order_rows-perm : (rows : List FactRow) → Perm (order_rows rows) rows
unfolding order_rows
order_rows-perm [] = Perm.rfl
order_rows-perm (r ∷ rows) =
    Perm.trans (insert_ordered-perm r (order_rows rows)) (Perm.cons r (order_rows-perm rows))

length-insert_ordered :
    (r : FactRow) (rows : List FactRow) → length (insert_ordered r rows) ≡ suc (length rows)
length-insert_ordered r [] = refl
length-insert_ordered r (x ∷ rows) = ground (arith, length-insert_ordered r rows)

length-order_rows : (rows : List FactRow) → length (order_rows rows) ≡ length rows
unfolding order_rows
length-order_rows [] = refl
length-order_rows (r ∷ rows) =
    omega (arith, length-insert_ordered r (order_rows rows), length-order_rows rows)

take-append_drop : (n : ℕ) (rows : List FactRow) → take n rows ++ drop n rows ≡ rows
take-append_drop zero rows = refl
take-append_drop (suc n) [] = refl
take-append_drop (suc n) (r ∷ rows) = ap (◌∷◌ r) (take-append_drop n rows)

-- `claimNext` takes as many of the rows in a wanted state as there are, up to the limit, and it takes
-- the first: put together with those that it leaves, they are the wanted rows, each once, and every row
-- stands before those behind it by its block height, then by its log index, or ties with them.
pub claim_next-IsFirst :
    (wanted : FactState → Bool) (limit : ℕ) (db : Db)
    → IsFirst limit (keep (λ r. wanted r.state) db.facts) (claim_next wanted limit db)
unfolding claim_next
claim_next-IsFirst wanted limit db =
    let rows = keep (λ r. wanted r.state) db.facts in
    let all = take-append_drop limit (order_rows rows) in
    (
      rw length-order_rows at (length-take limit (order_rows rows)),
      (
        drop limit (order_rows rows),
        rw all (order_rows-perm rows),
        rw all (order_rows-IsOrdered rows),
      ),
    )
