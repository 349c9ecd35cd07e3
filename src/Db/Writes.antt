-- ===== src/Db/Writes.antt =====
-- What `setState` and `recordAttempt` do to the rows of the facts table, whether they are refused or not.
use clearbook.Prelude.{
  ◌⊎◌, ℕ, ◌≡◌, ◌≢◌, refl, ◌∙◌, false, Option, none, some, exists, Bool-cases, inl, inr,
}
use clearbook.Text.{Text}
use clearbook.Async.{resolved}
use clearbook.Db.{
  attempted, set_state, record_attempt, patched, FactState, FactRow, Db, Patch, conflicts, row,
  write_row,
}
use clearbook.Db.Queries.{IsUp}
use clearbook.Db.Rows.{
  IsConsistent, row_id, row-replace_self, row-replace_ne, no_conflict, replace-IsConsistent,
  conflicts-same,
}

write-IsConsistent :
    (id : ℕ) (change : FactRow → FactRow) (o : Option FactRow) (db : Db)
    → IsConsistent db.facts
    → IsConsistent (write_row id change o db).1.facts
write-IsConsistent id change none db c = c
write-IsConsistent id change (some r) db c =
    elim (Bool-cases (exists (conflicts (change r)) db.facts)) [
      | inl refused ↦ rw refused c
      | inr free ↦ rw free (replace-IsConsistent id (change r) db.facts c free)
    ]

-- What an update by primary key does to a row that is there, where it changes no identifier: the row
-- written has the change, unless the update is refused, and every other row is as it was.
write-row :
    (id : ℕ) (change : FactRow → FactRow) (db : Db) (r : FactRow)
    → row id db.facts ≡ some r
    → (change r).id ≡ r.id
    → ((write_row id change (some r) db).0 ≡ resolved tt
        → row id (write_row id change (some r) db).1.facts ≡ some (change r))
      × ((j : ℕ) → j ≢ id → row j (write_row id change (some r) db).1.facts ≡ row j db.facts)
write-row id change db r e same =
    let id_same : (change r).id ≡ id = same ∙ row_id id db.facts r e in
    elim (Bool-cases (exists (conflicts (change r)) db.facts)) [
      | inl refused ↦ rw refused ((λ h. cc), (λ j n. refl))
      | inr free ↦ rw free (
        (λ h. row-replace_self id (change r) r db.facts e id_same),
        (λ j n. row-replace_ne id j (change r) db.facts id_same n),
      )
    ]

module _ (id : ℕ) (state : FactState) (patch : Patch) (db : Db) (r : FactRow)
    (found : row id db.facts ≡ some r) where
  -- `setState` on a row that is there: where it returns, the row has the new state and the patch; where
  -- it is refused it throws, and in both cases every other row is as it was.
  pub set_state-row :
      ((set_state id state patch db).0 ≡ resolved tt
        → row id (set_state id state patch db).1.facts ≡ some (patched state patch r))
      × ((j : ℕ) → j ≢ id → row j (set_state id state patch db).1.facts ≡ row j db.facts)
  unfolding set_state
  set_state-row = rw found (write-row id (patched state patch) db r found refl)

  -- A patch that names neither the fact identifier nor the index is never refused.
  pub set_state_plain :
      IsConsistent db.facts
      → patch.fact_id ≡ none
      → patch.tx_index ≡ none
      → (set_state id state patch db).0 ≡ resolved tt
  unfolding set_state
  set_state_plain c f t =
      let free : exists (conflicts (patched state patch r)) db.facts ≡ false =
        no_conflict (patched state patch) id db.facts r
          (λ x. conflicts-same (patched state patch r) r x refl refl refl (rw t) refl (rw f)) c
          found in
      rw (found, free)

-- The row after any `setState` or `recordAttempt` is still there, and so are the constraints.
abbrev pub IsStored : ℕ → Db → Type 0
IsStored id db = (r : FactRow) × (row id db.facts ≡ some r) × IsConsistent db.facts

write-IsStored :
    (id : ℕ) (change : FactRow → FactRow) (db : Db) (r : FactRow)
    → row id db.facts ≡ some r
    → (change r).id ≡ r.id
    → IsConsistent db.facts
    → IsStored id (write_row id change (some r) db).1
write-IsStored id change db r found same c =
    elim (Bool-cases (exists (conflicts (change r)) db.facts)) [
      | inl refused ↦ rw refused (r, found, c)
      | inr free ↦ rw free (
        change r,
        row-replace_self id (change r) r db.facts found (same ∙ row_id id db.facts r found),
        replace-IsConsistent id (change r) db.facts c free,
      )
    ]

pub set_state-IsStored :
    (id : ℕ) (state : FactState) (patch : Patch) (db : Db)
    → IsStored id db
    → IsStored id (set_state id state patch db).1
unfolding set_state
set_state-IsStored id state patch db (r, found, c) =
    rw found (write-IsStored id (patched state patch) db r found refl c)

pub record_attempt-IsStored :
    (id : ℕ) (error : Text) (db : Db) → IsStored id db → IsStored id (record_attempt id error db).1
unfolding record_attempt
record_attempt-IsStored id error db (r, found, c) =
    rw found (write-IsStored id (attempted error) db r found refl c)

-- Counting an attempt is never refused.
pub record_attempt-returns :
    (id : ℕ) (error : Text) (db : Db)
    → IsStored id db
    → (record_attempt id error db).0 ≡ resolved tt
unfolding record_attempt
record_attempt-returns id error db (r, found, c) =
    let free : exists (conflicts (attempted error r)) db.facts ≡ false =
      no_conflict (attempted error) id db.facts r
        (λ x. conflicts-same (attempted error r) r x refl refl refl refl refl refl) c found in
    rw (found, free)

-- Counting an attempt changes no other row.
pub record_attempt-row_ne :
    (id : ℕ) (error : Text) (db : Db) (j : ℕ)
    → IsStored id db
    → j ≢ id
    → row j (record_attempt id error db).1.facts ≡ row j db.facts
unfolding record_attempt
record_attempt-row_ne id error db j (r, found, c) n =
    rw found ((write-row id (attempted error) db r found refl).1 j n)

-- The row of an update, whether it is refused or not.
write-row_self :
    (id : ℕ) (change : FactRow → FactRow) (db : Db) (r : FactRow)
    → row id db.facts ≡ some r
    → (change r).id ≡ r.id
    → (row id (write_row id change (some r) db).1.facts ≡ some (change r))
      ⊎ (row id (write_row id change (some r) db).1.facts ≡ some r)
write-row_self id change db r e same = elim (Bool-cases (exists (conflicts (change r)) db.facts)) [
  | inl refused ↦ rw refused (inr e)
  | inr free ↦
      rw free (inl (row-replace_self id (change r) r db.facts e (same ∙ row_id id db.facts r e)))
]

pub set_state-row_self :
    (id : ℕ) (state : FactState) (patch : Patch) (db : Db) (r : FactRow)
    → row id db.facts ≡ some r
    → (row id (set_state id state patch db).1.facts ≡ some (patched state patch r))
      ⊎ (row id (set_state id state patch db).1.facts ≡ some r)
unfolding set_state
set_state-row_self id state patch db r e =
    rw e (write-row_self id (patched state patch) db r e refl)

pub record_attempt-row :
    (id : ℕ) (error : Text) (db : Db) (r : FactRow)
    → row id db.facts ≡ some r
    → IsConsistent db.facts
    → row id (record_attempt id error db).1.facts ≡ some (attempted error r)
unfolding record_attempt
record_attempt-row id error db r e c =
    let free : exists (conflicts (attempted error r)) db.facts ≡ false =
      no_conflict (attempted error) id db.facts r
        (λ x. conflicts-same (attempted error r) r x refl refl refl refl refl refl) c e in
    rw (e, free) (row-replace_self id (attempted error r) r db.facts e (row_id id db.facts r e))

-- No statement changes what the pool answers.
write-IsUp :
    (id : ℕ) (change : FactRow → FactRow) (o : Option FactRow) (db : Db)
    → IsUp db
    → IsUp (write_row id change o db).1
write-IsUp id change none db up = up
write-IsUp id change (some r) db up = elim (Bool-cases (exists (conflicts (change r)) db.facts)) [
  | inl refused ↦ rw refused up
  | inr free ↦ rw free up
]

pub set_state-IsUp :
    (id : ℕ) (state : FactState) (patch : Patch) (db : Db)
    → IsUp db
    → IsUp (set_state id state patch db).1
unfolding set_state
set_state-IsUp id state patch db up = write-IsUp id (patched state patch) (row id db.facts) db up

pub record_attempt-IsUp :
    (id : ℕ) (error : Text) (db : Db) → IsUp db → IsUp (record_attempt id error db).1
unfolding record_attempt
record_attempt-IsUp id error db up = write-IsUp id (attempted error) (row id db.facts) db up

-- Every statement keeps the constraints of the table.
pub set_state-IsConsistent :
    (id : ℕ) (state : FactState) (patch : Patch) (db : Db)
    → IsConsistent db.facts
    → IsConsistent (set_state id state patch db).1.facts
unfolding set_state
set_state-IsConsistent id state patch db c =
    write-IsConsistent id (patched state patch) (row id db.facts) db c

pub record_attempt-IsConsistent :
    (id : ℕ) (error : Text) (db : Db)
    → IsConsistent db.facts
    → IsConsistent (record_attempt id error db).1.facts
unfolding record_attempt
record_attempt-IsConsistent id error db c =
    write-IsConsistent id (attempted error) (row id db.facts) db c
