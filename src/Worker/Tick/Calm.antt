-- ===== src/Worker/Tick/Calm.antt =====
-- What holds of the store between two rounds: that a scan and a restart keep it.
use clearbook.Prelude.{
  ℕ, ◌≡◌, ◌⊎◌, refl, ◌∙◌, true, false, some, List, [], ◌∷◌, ◌++◌, map, arith, ◌==◌, All, Bool-cases,
  inl, inr, exists,
}
use clearbook.Db.{
  FactRow, Db, Discovery, row, row_of, same_key, conflicts, insert_discovered, set_cursor,
  requeue_stranded, requeue_row,
}
use clearbook.Db.Queries.{IsUp}
use clearbook.Db.Rows.{IsConsistent}
use clearbook.Db.Insert.{insert-IsConsistent}
use clearbook.Db.Keys.{IsKeyed, insert-IsKeyed}
use clearbook.Watch
use clearbook.Watch.Keeps
use clearbook.Worker.Advance.Ends.{is_parked}
use clearbook.Worker.Tick.Queued.{IsCalm}

row-append :
    (id : ℕ) (rows : List FactRow) (new r : FactRow)
    → row id (rows ++ new ∷ []) ≡ some r
    → (row id rows ≡ some r) ⊎ (new ≡ r)
row-append id [] new r e = ground arith
row-append id (x ∷ rows) new r e = elim (Bool-cases (x.id == id)) [
  | inl hit ↦ rw hit (inl (rw hit at e))
  | inr miss ↦ rw miss (row-append id rows new r (rw miss at e))
]

insert-IsCalm : (d : Discovery) (db : Db) → IsCalm db → IsCalm (insert_discovered d db).1
unfolding insert_discovered
insert-IsCalm d db (c, parked, up) = (
  insert-IsConsistent d db c,
  elim (Bool-cases (exists (same_key (row_of db.next_id d)) db.facts)) [
    | inl known ↦ rw known parked
    | inr new ↦ rw new (λ j r e. elim (row-append j db.facts (row_of db.next_id d) r e) [
      | inl old ↦ parked j r old
      | inr same ↦ rw⁻¹ same refl
    ])
  ],
  elim (Bool-cases (exists (same_key (row_of db.next_id d)) db.facts)) [
    | inl known ↦ rw known up
    | inr new ↦ rw new up
  ],
)

pub IsCalm-Keeps : Watch.Keeps.Keeps IsCalm
unfolding set_cursor
IsCalm-Keeps = record { ask = λ db h. h; insert = insert-IsCalm; cursor = λ key last db h. h }

-- The constraints alone, with the primary key, which the scan keeps whatever the pool says.
abbrev pub Consistent : Db → Type 0
Consistent db = IsConsistent db.facts × IsKeyed db

pub Consistent-Keeps : Watch.Keeps.Keeps Consistent
unfolding set_cursor
Consistent-Keeps = record {
  ask = λ db c. c;
  insert = λ d db (c, k). (insert-IsConsistent d db c, insert-IsKeyed d db k);
  cursor = λ key last db c. c;
}

-- The restart keeps the constraints and leaves nothing in flight.
conflicts-requeue : (a b : FactRow) → conflicts (requeue_row a) (requeue_row b) ≡ conflicts a b
unfolding conflicts same_key
conflicts-requeue a b = ground arith

All-map :
    (P Q : FactRow → Type 0) (f : FactRow → FactRow) (rows : List FactRow)
    → ((x : FactRow) → P x → Q (f x))
    → All P rows
    → All Q (map f rows)
All-map P Q f [] k h = tt
All-map P Q f (x ∷ rows) k h = (k x h.0, All-map P Q f rows k h.1)

pub requeue-IsConsistent :
    (rows : List FactRow) → IsConsistent rows → IsConsistent (map requeue_row rows)
requeue-IsConsistent rows c =
    All-map (λ a. All (λ b. conflicts a b ≡ false) rows)
      (λ a. All (λ b. conflicts a b ≡ false) (map requeue_row rows)) requeue_row rows
      (λ a h.
        All-map (λ b. conflicts a b ≡ false) (λ b. conflicts (requeue_row a) b ≡ false) requeue_row
          rows (λ b free. conflicts-requeue a b ∙ free) h)
      c

row-requeued :
    (id : ℕ) (rows : List FactRow) (r : FactRow)
    → row id (map requeue_row rows) ≡ some r
    → is_parked r.state ≡ true
row-requeued id [] r e = cc
row-requeued id (x ∷ rows) r e = ground (arith, row-requeued id rows r)

pub requeue-IsCalm : (db : Db) → IsConsistent db.facts → IsUp db → IsCalm (requeue_stranded db).1
unfolding requeue_stranded
requeue-IsCalm db c up =
    (requeue-IsConsistent db.facts c, (λ j r e. row-requeued j db.facts r e), up)
