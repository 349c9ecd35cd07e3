-- ===== src/Db/Keys.antt =====
-- The primary key of the facts table (worker/migrations/001_init.sql): the identifiers come from the
-- sequence of the table.
use clearbook.Prelude.{
  ℕ, ◌+◌, ◌<◌, ◌≡◌, ◌≢◌, refl, ap, ◌∙◌, Option, none, some, List, [], ◌∷◌, ◌++◌, map, arith, exists,
  All, All-imp, All-append, Bool-cases, inl, inr,
}
use clearbook.Text.{Text}
use clearbook.Db.{
  FactState, FactRow, Db, Discovery, Patch, patched, attempted, row, row_of, same_key, conflicts,
  replace_row, write_row, requeue_row, insert_discovered, requeue_stranded, set_state,
  record_attempt,
}
use clearbook.Db.Rows.{row_id}

-- The identifiers of the rows: no two are equal, and all are below the next one of the sequence.
abbrev Distinct : List ℕ → Type 0
Distinct [] = Unit
Distinct (i ∷ ids) = All (λ j. i ≢ j) ids × Distinct ids

abbrev ids_of : List FactRow → List ℕ
ids_of [] = []
ids_of (r ∷ rows) = r.id ∷ ids_of rows

abbrev pub IsKeyed : Db → Type 0
IsKeyed db = All (λ i. i < db.next_id) (ids_of db.facts) × Distinct (ids_of db.facts)

ids_of-append :
    (rows : List FactRow) (r : FactRow) → ids_of (rows ++ r ∷ []) ≡ ids_of rows ++ r.id ∷ []
ids_of-append [] r = refl
ids_of-append (x ∷ rows) r = ap (◌∷◌ x.id) (ids_of-append rows r)

Distinct-append :
    (n : ℕ) (ids : List ℕ) → All (λ i. i < n) ids → Distinct ids → Distinct (ids ++ n ∷ [])
Distinct-append n [] below d = (tt, tt)
Distinct-append n (i ∷ ids) below d = (
  All-append (λ j. i ≢ j) ids (n ∷ []) d.0 ((λ e. absurd (omega (arith, e, below.0))), tt),
  Distinct-append n ids below.1 d.1,
)

below-append : (n : ℕ) (ids : List ℕ) → All (λ i. i < n) ids → All (λ i. i < n + 1) (ids ++ n ∷ [])
below-append n ids below =
    All-append (λ i. i < n + 1) ids (n ∷ []) (All-imp _ _ ids (λ i le. omega arith) below)
      (omega arith, tt)

pub insert-IsKeyed :
    (input : Discovery) (db : Db) → IsKeyed db → IsKeyed (insert_discovered input db).1
unfolding insert_discovered
insert-IsKeyed input db (below, distinct) =
    elim (Bool-cases (exists (same_key (row_of db.next_id input)) db.facts)) [
      | inl known ↦ rw known (All-imp _ _ (ids_of db.facts) (λ i le. omega arith) below, distinct)
      | inr new ↦
          rw (new, ids_of-append db.facts (row_of db.next_id input))
            (
              below-append db.next_id (ids_of db.facts) below,
              Distinct-append db.next_id (ids_of db.facts) below distinct,
            )
    ]

ids_of-replace :
    (id : ℕ) (r : FactRow) (rows : List FactRow)
    → r.id ≡ id
    → ids_of (replace_row id r rows) ≡ ids_of rows
ids_of-replace id r [] same = refl
ids_of-replace id r (x ∷ rows) same = ground (arith, ids_of-replace id r rows same)

-- An update that changes no identifier.
write-IsKeyed :
    (id : ℕ) (change : FactRow → FactRow) (o : Option FactRow) (db : Db)
    → ((r : FactRow) → (change r).id ≡ r.id)
    → row id db.facts ≡ o
    → IsKeyed db
    → IsKeyed (write_row id change o db).1
write-IsKeyed id change none db same e k = k
write-IsKeyed id change (some r) db same e k =
    elim (Bool-cases (exists (conflicts (change r)) db.facts)) [
      | inl refused ↦ rw refused k
      | inr free ↦
          let ids = ids_of-replace id (change r) db.facts (same r ∙ row_id id db.facts r e) in
          rw (free, ids) k
    ]

module _ (id : ℕ) where
  pub set_state-IsKeyed :
      (state : FactState) (patch : Patch) (db : Db)
      → IsKeyed db
      → IsKeyed (set_state id state patch db).1
  unfolding set_state
  set_state-IsKeyed state patch db k =
      write-IsKeyed id (patched state patch) (row id db.facts) db (λ r. refl) refl k

  pub record_attempt-IsKeyed :
      (error : Text) (db : Db) → IsKeyed db → IsKeyed (record_attempt id error db).1
  unfolding record_attempt
  record_attempt-IsKeyed error db k =
      write-IsKeyed id (attempted error) (row id db.facts) db (λ r. refl) refl k

ids_of-requeue : (rows : List FactRow) → ids_of (map requeue_row rows) ≡ ids_of rows
ids_of-requeue [] = refl
ids_of-requeue (x ∷ rows) = ground (arith, ids_of-requeue rows)

pub requeue-IsKeyed : (db : Db) → IsKeyed db → IsKeyed (requeue_stranded db).1
unfolding requeue_stranded
requeue-IsKeyed db k = rw (ids_of-requeue db.facts) k
