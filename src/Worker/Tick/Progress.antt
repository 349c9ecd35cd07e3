-- ===== src/Worker/Tick/Progress.antt =====
-- What advancing the rows of a round, one after the other, does to each of them.
use mathlib.Core.Path.{subst}
use clearbook.Prelude.{
  ℕ, ◌≡◌, ◌≢◌, refl, sym, ◌∙◌, Bool, true, Option, some, List, [], ◌∷◌, arith, ◌==◌, exists, All,
  All-imp, Bool-cases, inl, inr, le_refl,
}
use clearbook.Async.{for_each}
use clearbook.Db.{Db, FactRow, row}
use clearbook.Db.Writes.{
  IsStored, set_state-row, set_state-IsStored, record_attempt-IsStored, record_attempt-row_ne,
}
use clearbook.Worker.{Services, Worker}
use clearbook.Worker.Advance.{advance}
use clearbook.Worker.Advance.Keeps.{Keeps, On, On-advance}
use clearbook.Worker.Advance.Progress.{IsStoredWith, IsTried, IsStoredWith-Keeps, advance-IsTried}
use clearbook.Worker.Tick.Queued.{IsPresent, IsCalm, advance-IsCalm}

-- The row of `j` is `o` while another row is in work.
abbrev IsBeside : ℕ → ℕ → Option FactRow → Db → Type 0
IsBeside id j o db = IsStored id db × (row j db.facts ≡ o)

IsBeside-Keeps : (id j : ℕ) (o : Option FactRow) → j ≢ id → Keeps id (IsBeside id j o)
IsBeside-Keeps id j o n = record {
  ask = λ db h. h;
  set = λ state patch db ((r, found, c), same). (
    set_state-IsStored id state patch db (r, found, c),
    (set_state-row id state patch db r found).1 j n ∙ same,
  );
  attempt = λ error db (stored, same). (
    record_attempt-IsStored id error db stored,
    record_attempt-row_ne id error db j stored n ∙ same,
  );
}

module _ (services : Services) where
  advance-row_ne :
      (fact : FactRow) (w : Worker) (j : ℕ)
      → IsStored fact.id w.db
      → j ≢ fact.id
      → row j (advance services fact w).1.db.facts ≡ row j w.db.facts
  unfolding On
  advance-row_ne fact w j stored n =
      ((On-advance (IsBeside fact.id j (row j w.db.facts)) services fact
          (IsBeside-Keeps fact.id j (row j w.db.facts) n)).kept
        w (stored, refl)).1

  -- What one row of the queue does to the row of `j`, be it this row or another one.
  abbrev Next : ℕ → ℕ → Bool → Db → Db → Type 0
  Next n j is_here db db' =
      IsStoredWith n j db' × (IsTried n j db → IsTried n j db') × (is_here ≡ true → IsTried n j db')

  advance-Next :
      (n j : ℕ) (fact : FactRow) (rows : List FactRow) (w : Worker)
      → IsCalm w.db
      → All (λ r. IsPresent w.db r.id) (fact ∷ rows)
      → IsStoredWith n j w.db
      → Next n j (fact.id == j) w.db (advance services fact w).1.db
  unfolding On
  advance-Next n j fact rows w calm there h = elim (Bool-cases (fact.id == j)) [
    | inl here ↦
        let at : j ≡ fact.id = ground arith in
        let h' : IsStoredWith n fact.id w.db = subst (λ i. IsStoredWith n i w.db) at h in
        let tried : IsTried n j (advance services fact w).1.db =
          subst (λ i. IsTried n i (advance services fact w).1.db) (sym at)
            (advance-IsTried n services fact w h'
              (advance-IsCalm services fact rows w calm there).0) in
        (
          subst (λ i. IsStoredWith n i (advance services fact w).1.db) (sym at)
              ((On-advance (IsStoredWith n fact.id) services fact
                  (IsStoredWith-Keeps n fact.id)).kept
                w h'),
          λ before. tried,
          λ e. tried,
        )
    | inr other ↦
        let (r, found) = there.0 in
        let same = advance-row_ne fact w j (r, found, calm.0) (ground arith) in
        let (returns, calm', there') = advance-IsCalm services fact rows w calm there in
        let (x, at, le, c) = h in
        (
          (x, same ∙ at, le, calm'.0),
          λ (y, found', progress). (y, same ∙ found', progress),
          λ e. cc,
        )
  ]

  each-Next :
      (n j : ℕ) (rows : List FactRow) (w : Worker)
      → IsCalm w.db
      → All (λ r. IsPresent w.db r.id) rows
      → IsStoredWith n j w.db
      → Next n j (exists (λ r. r.id == j) rows) w.db (for_each (advance services) rows w).1.db
  each-Next n j [] w calm there h = (h, (λ t. t), (λ e. cc))
  each-Next n j (fact ∷ rows) w calm there h =
      let (returns, calm', there') = advance-IsCalm services fact rows w calm there in
      let (stored, keeps, here) = advance-Next n j fact rows w calm there h in
      let (stored', keeps', later) =
        each-Next n j rows (advance services fact w).1 calm' there' stored in
      rw returns (
        stored',
        (λ t. keeps' (keeps t)),
        λ e. elim (Bool-cases (fact.id == j)) [
          | inl first ↦ keeps' (here first)
          | inr not_first ↦ later (ground arith)
        ],
      )

-- A row of a list is among the rows with its identifier.
exists-cons :
    (x : FactRow) (rows : List FactRow) (id : ℕ)
    → exists (λ r. r.id == id) rows ≡ true
    → exists (λ r. r.id == id) (x ∷ rows) ≡ true
exists-cons x rows id h = ground (arith, h)

All-exists : (rows : List FactRow) → All (λ x. exists (λ r. r.id == x.id) rows ≡ true) rows
All-exists [] = tt
All-exists (x ∷ rows) =
    (ground arith, All-imp _ _ rows (λ y h. exists-cons x rows y.id h) (All-exists rows))

-- The row with the identifier of a claimed one: its attempts are `n` before.
abbrev pub IsAdvanced : Db → Db → FactRow → Type 0
IsAdvanced db db' claimed =
    (old : FactRow) → row claimed.id db.facts ≡ some old → IsTried old.attempts claimed.id db'

pub each-IsAdvanced :
    (services : Services) (rows : List FactRow) (w : Worker)
    → IsCalm w.db
    → All (λ r. IsPresent w.db r.id) rows
    → All (IsAdvanced w.db (for_each (advance services) rows w).1.db) rows
each-IsAdvanced services rows w calm there =
    All-imp _ _ rows
      (λ x h old found.
        (each-Next services old.attempts x.id rows w calm there
            (old, found, le_refl old.attempts, calm.0)).2
          h)
      (All-exists rows)
