-- ===== src/Db/Queue.antt =====
-- Restart: what `requeueStranded` does to the rows.
use clearbook.Prelude.{
  ℕ, ◌≡◌, refl, Bool, true, false, none, some, List, [], ◌∷◌, map, arith, if◌then◌else◌, keep,
  Bool-cases, inl, inr,
}
use mathlib.Core.Option
use clearbook.Text.{Text}
use clearbook.Db.{
  FactState, discovered, waiting_attestation, proved, precheck_failed, submitted, confirmed, failed,
  FactRow, Db, is_stranded, requeue_row, requeue_stranded, row,
}

-- The states in which a row stays until something outside the pipeline acts.
abbrev pub is_terminal : FactState → Bool
is_terminal discovered = false
is_terminal waiting_attestation = false
is_terminal proved = false
is_terminal precheck_failed = true
is_terminal submitted = false
is_terminal confirmed = true
is_terminal failed = true

-- A row after the restart: but for its state and its last error it is as it was. Its state is as it was
-- if it was terminal, and else it is queued; a last error that it had is as it was, and a row that was
-- not in flight has no new one.
abbrev pub Recovered : FactRow → FactRow → Type 0
Recovered old new =
    (record new { state = old.state; last_error = old.last_error } ≡ old)
    × (new.state ≡ (if is_terminal old.state then old.state else discovered))
    × ((e : Text) → old.last_error ≡ some e → new.last_error ≡ some e)
    × (is_stranded old.state ≡ false → new.last_error ≡ old.last_error)

requeue_row-Recovered : (r : FactRow) → Recovered r (requeue_row r)
requeue_row-Recovered r = elim (Bool-cases (is_stranded r.state)) [
  | inl stranded ↦ rw stranded (refl, ground arith, (λ e h. rw h refl), (λ not_stranded. cc))
  | inr other ↦ rw other (refl, ground arith, (λ e h. h), (λ h. refl))
]

requeue_row_id : (r : FactRow) → (requeue_row r).id ≡ r.id
requeue_row_id r = ground arith

row-requeue :
    (id : ℕ) (rows : List FactRow)
    → row id (map requeue_row rows) ≡ Option.map requeue_row (row id rows)
row-requeue id [] = refl
row-requeue id (x ∷ rows) = ground (arith, row-requeue id rows, requeue_row_id x)

-- A crash strands no fact: whatever the table, after the statement of `requeueStranded` every row that
-- was there is there, with every column as it was but the state and the last error; its state is its
-- terminal state if it had one and else `DISCOVERED`, from where the queue takes it; its last error, if
-- it had one, is as it was, and a row that was not in flight gets none; no row is added.
pub requeue-Recovered :
    (db : Db) (id : ℕ)
    → ((r : FactRow)
        → row id db.facts ≡ some r
        → (r' : FactRow) × (row id (requeue_stranded db).1.facts ≡ some r') × Recovered r r')
      × (row id db.facts ≡ none → row id (requeue_stranded db).1.facts ≡ none)
unfolding requeue_stranded
requeue-Recovered db id = (
  λ r e. (requeue_row r, rw (row-requeue id db.facts, e), requeue_row-Recovered r),
  λ e. rw (row-requeue id db.facts, e),
)

keep-requeue : (rows : List FactRow) → keep (λ r. is_stranded r.state) (map requeue_row rows) ≡ []
keep-requeue [] = refl
keep-requeue (x ∷ rows) = ground (arith, keep-requeue rows)

map-requeue_idem :
    (rows : List FactRow) → map requeue_row (map requeue_row rows) ≡ map requeue_row rows
map-requeue_idem [] = refl
map-requeue_idem (x ∷ rows) = ground (arith, map-requeue_idem rows)

-- Requeueing a second time changes no row and leaves the database as it is.
requeue_idem : (db : Db) → requeue_stranded (requeue_stranded db).1 ≡ (0, (requeue_stranded db).1)
unfolding requeue_stranded
requeue_idem db = simp (keep-requeue, map-requeue_idem)
