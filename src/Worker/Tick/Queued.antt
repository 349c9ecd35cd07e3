-- ===== src/Worker/Tick/Queued.antt =====
-- The rows that a tick takes, and the table after they were advanced one after the other.
use clearbook.Prelude.{
  ℕ, zero, suc, ◌≡◌, ◌≢◌, refl, sym, ◌∙◌, Bool, true, some, List, [], ◌∷◌, arith, ◌==◌, All,
  All-imp, Bool-cases, inl, inr, keep, take,
}
use clearbook.Async.{resolved, for_each}
use clearbook.Db.{
  FactState, FactRow, Db, row, set_state, record_attempt, before, insert_ordered, order_rows,
  claim_next,
}
use clearbook.Db.Queries.{IsUp}
use clearbook.Db.Rows.{IsConsistent}
use clearbook.Db.Writes.{
  IsStored, set_state-row, set_state-IsStored, record_attempt-IsStored, record_attempt-row_ne,
}
use clearbook.Worker.{Services, Worker}
use clearbook.Worker.Advance.{advance}
use clearbook.Worker.Advance.Keeps.{Keeps, On, On-advance}
use clearbook.Worker.Advance.Ends.{is_parked, IsUp-Keeps, advance-Parked}

-- A row of the table has this identifier.
abbrev pub IsPresent : Db → ℕ → Type 0
IsPresent db id = (r : FactRow) × (row id db.facts ≡ some r)

-- Every row is queued or in a terminal state, save that of `id`.
abbrev pub IsParkedBut : ℕ → Db → Type 0
IsParkedBut id db =
    (j : ℕ) → j ≢ id → (r : FactRow) → row j db.facts ≡ some r → is_parked r.state ≡ true

-- Every row is queued or in a terminal state, the constraints of the table hold, and the pool answers.
abbrev pub IsCalm : Db → Type 0
IsCalm db =
    IsConsistent db.facts
    × ((j : ℕ) (r : FactRow) → row j db.facts ≡ some r → is_parked r.state ≡ true)
    × IsUp db

-- While the row of `id` is in work: it and the other rows to come are there.
abbrev pub IsBusy : ℕ → List FactRow → Db → Type 0
IsBusy id rows db = IsStored id db × IsParkedBut id db × All (λ r. IsPresent db r.id) rows

IsBusy-change :
    (id : ℕ) (rows : List FactRow) (db db' : Db)
    → IsStored id db'
    → ((j : ℕ) → j ≢ id → row j db'.facts ≡ row j db.facts)
    → IsBusy id rows db
    → IsBusy id rows db'
IsBusy-change id rows db db' (r, found, c) same (stored, parked, there) = (
  (r, found, c),
  (λ j n x e. parked j n x (sym (same j n) ∙ e)),
  All-imp _ _ rows
      (λ x (y, e). elim (Bool-cases (x.id == id)) [
        | inl hit ↦ let at : id ≡ x.id = ground arith in (r, rw at at found)
        | inr miss ↦ (y, same x.id (ground arith) ∙ e)
      ])
      there,
)

IsBusy-Keeps : (id : ℕ) (rows : List FactRow) → Keeps id (IsBusy id rows)
IsBusy-Keeps id rows = record {
  ask = λ db h. h;
  set = λ state patch db h.
      let (r, found, c) = h.0 in
      IsBusy-change id rows db (set_state id state patch db).1
        (set_state-IsStored id state patch db h.0) (set_state-row id state patch db r found).1 h;
  attempt = λ error db h.
      IsBusy-change id rows db (record_attempt id error db).1
        (record_attempt-IsStored id error db h.0) (λ j n. record_attempt-row_ne id error db j h.0 n)
        h;
}

module _ (services : Services) where
  -- One row, with others to come.
  pub advance-IsCalm :
      (fact : FactRow) (rows : List FactRow) (w : Worker)
      → IsCalm w.db
      → All (λ r. IsPresent w.db r.id) (fact ∷ rows)
      → ((advance services fact w).0 ≡ resolved tt)
        × IsCalm (advance services fact w).1.db
        × All (λ r. IsPresent (advance services fact w).1.db r.id) rows
  unfolding On
  advance-IsCalm fact rows w (c, parked, up) ((r, found), there) =
      let stored : IsStored fact.id w.db = (r, found, c) in
      let (stored', ends, answered) = advance-Parked services fact w stored in
      let returns = answered up in
      let (r', found', parked') = ends returns in
      let busy =
        (On-advance (IsBusy fact.id rows) services fact (IsBusy-Keeps fact.id rows)).kept w
          (stored, (λ j n x e. parked j x e), there) in
      (
        returns,
        (
          stored'.2,
          λ j x e. elim (Bool-cases (j == fact.id)) [
            | inl hit ↦
                let at : j ≡ fact.id = ground arith in
                let e' : row fact.id (advance services fact w).1.db.facts ≡ some x = rw at at e in
                let same : r' ≡ x = cc in rw⁻¹ same parked'
            | inr miss ↦ busy.1 j (ground arith) x e
          ],
          (On-advance IsUp services fact (IsUp-Keeps fact.id)).kept w up,
        ),
        busy.2,
      )

  pub advance_each-IsCalm :
      (rows : List FactRow) (w : Worker)
      → IsCalm w.db
      → All (λ r. IsPresent w.db r.id) rows
      → ((for_each (advance services) rows w).0 ≡ resolved tt)
        × IsCalm (for_each (advance services) rows w).1.db
  advance_each-IsCalm [] w calm there = (refl, calm)
  advance_each-IsCalm (fact ∷ rows) w calm there =
      let (returns, calm', there') = advance-IsCalm fact rows w calm there in
      let next = (advance services fact w).1 in
      let rest = advance_each-IsCalm rows next calm' there' in rw returns rest

-- What `claimNext` gives is in the table.
IsPresent-cons :
    (x : FactRow) (rows : List FactRow) (id : ℕ)
    → ((r : FactRow) × (row id rows ≡ some r))
    → (r : FactRow) × (row id (x ∷ rows) ≡ some r)
IsPresent-cons x rows id (r, found) = elim (Bool-cases (x.id == id)) [
  | inl hit ↦ (x, rw hit refl)
  | inr miss ↦ (r, rw miss found)
]

all-IsPresent : (rows : List FactRow) → All (λ x. (r : FactRow) × (row x.id rows ≡ some r)) rows
all-IsPresent [] = tt
all-IsPresent (x ∷ rows) =
    ((x, ground arith), All-imp _ _ rows (λ y h. IsPresent-cons x rows y.id h) (all-IsPresent rows))

module _ (P : FactRow → Type 0) where
  All-keep : (p : FactRow → Bool) (rows : List FactRow) → All P rows → All P (keep p rows)
  All-keep p [] h = tt
  All-keep p (x ∷ rows) h = elim (Bool-cases (p x)) [
    | inl keeps ↦ rw keeps (h.0, All-keep p rows h.1)
    | inr drops ↦ rw drops (All-keep p rows h.1)
  ]

  All-insert_ordered :
      (r : FactRow) (rows : List FactRow) → P r → All P rows → All P (insert_ordered r rows)
  All-insert_ordered r [] p h = (p, tt)
  All-insert_ordered r (x ∷ rows) p h = elim (Bool-cases (before r x)) [
    | inl keeps ↦ rw keeps (p, h)
    | inr drops ↦ rw drops (h.0, All-insert_ordered r rows p h.1)
  ]

  All-order_rows : (rows : List FactRow) → All P rows → All P (order_rows rows)
  unfolding order_rows
  All-order_rows [] h = tt
  All-order_rows (x ∷ rows) h = All-insert_ordered x (order_rows rows) h.0 (All-order_rows rows h.1)

  All-take : (n : ℕ) (rows : List FactRow) → All P rows → All P (take n rows)
  All-take zero rows h = tt
  All-take (suc n) [] h = tt
  All-take (suc n) (x ∷ rows) h = (h.0, All-take n rows h.1)

pub claim_next-IsPresent :
    (wanted : FactState → Bool) (limit : ℕ) (db : Db)
    → All (λ r. IsPresent db r.id) (claim_next wanted limit db)
unfolding claim_next
claim_next-IsPresent wanted limit db =
    let there = λ (x : FactRow). IsPresent db x.id in
    All-take there limit _ (
      All-order_rows there _
        (All-keep there (λ r. wanted r.state) db.facts (all-IsPresent db.facts)))
