-- ===== src/Worker/Advance/Ends.antt =====
-- How `advance` ends.
use clearbook.Prelude.{ℕ, ◌≡◌, refl, ◌∙◌, ap, Bool, true, false, some, Bool-cases, inl, inr}
use clearbook.Text.{Text}
use clearbook.Async.{Settled, resolved, rejected, handle}
use clearbook.Async.Ends.{Ends, Ends-then, Ends-catch, Ends-if}
use clearbook.Db.{
  FactState, FactRow, Db, Patch, no_patch, row, set_state, record_attempt, discovered, confirmed,
  failed, precheck_failed, submitted, proved, waiting_attestation,
}
use clearbook.Db.Pool
use clearbook.Db.Queries.{IsUp, query-resolved}
use clearbook.Db.Rows.{IsConsistent}
use clearbook.Db.Keys.{IsKeyed, set_state-IsKeyed, record_attempt-IsKeyed}
use clearbook.Db.Writes.{
  set_state-IsUp, record_attempt-IsUp, set_state-IsConsistent, record_attempt-IsConsistent,
  IsStored, set_state-row, set_state_plain, set_state-IsStored, record_attempt-IsStored,
  record_attempt-returns,
}
use clearbook.Worker.{Failure, message, Services, Worker, store, as_thrown}
use clearbook.Db.Queue.{is_terminal}
use clearbook.Worker.Advance.Finishes.{Ends-steps}
use clearbook.Worker.Advance.Keeps.{Keeps, On, On-set_state, On-record_attempt, On-count, On-steps}
use clearbook.Worker.Advance.{steps, park, is_retriable, advance}

-- The row is there, and the constraints of the table hold.
abbrev pub Stored : ℕ → Worker → Type 0
Stored id w = IsStored id w.db

-- The state of the row is `state`.
abbrev pub Holds : ℕ → FactState → Worker → Type 0
Holds id state w = (r : FactRow) × (row id w.db.facts ≡ some r) × (r.state ≡ state)

-- Not in flight: queued again, or in a terminal state.
abbrev pub is_parked : FactState → Bool
is_parked discovered = true
is_parked waiting_attestation = false
is_parked proved = false
is_parked precheck_failed = true
is_parked submitted = false
is_parked confirmed = true
is_parked failed = true

abbrev pub Parked : ℕ → Worker → Type 0
Parked id w = (r : FactRow) × (row id w.db.facts ≡ some r) × (is_parked r.state ≡ true)

IsStored-Keeps : (id : ℕ) → Keeps id (IsStored id)
IsStored-Keeps id = record {
  ask = λ db h. h;
  set = set_state-IsStored id;
  attempt = record_attempt-IsStored id;
}

pub Consistent-advances : (id : ℕ) → Keeps id (λ db. IsConsistent db.facts × IsKeyed db)
Consistent-advances id = record {
  ask = λ db c. c;
  set = λ state patch db (c, k).
      (set_state-IsConsistent id state patch db c, set_state-IsKeyed id state patch db k);
  attempt = λ error db (c, k).
      (record_attempt-IsConsistent id error db c, record_attempt-IsKeyed id error db k);
}

pub IsUp-Keeps : (id : ℕ) → Keeps id IsUp
IsUp-Keeps id = record {
  ask = λ db up. up;
  set = set_state-IsUp id;
  attempt = record_attempt-IsUp id;
}

pub returned :
    {r : Settled Text (Unit {0})} {a : Unit {0}} → as_thrown r ≡ resolved a → r ≡ resolved tt
returned {r = resolved u} h = refl
returned {r = rejected m} h = cc

terminal-parked : (state : FactState) → is_terminal state ≡ true → is_parked state ≡ true
terminal-parked discovered h = refl
terminal-parked waiting_attestation h = h
terminal-parked proved h = h
terminal-parked precheck_failed h = refl
terminal-parked submitted h = h
terminal-parked confirmed h = refl
terminal-parked failed h = refl

-- A `setState` to a parked state, where it returns, leaves the row parked.
Ends-set_state :
    (id : ℕ) (state : FactState) (patch : Patch)
    → is_parked state ≡ true
    → Ends (On (IsStored id)) (Parked id) (store (Pool.set_state id state patch))
unfolding On
Ends-set_state id state patch parked = record {
  kept = (On-set_state (IsStored id) id state patch (IsStored-Keeps id)).kept;
  reached = λ w a (r, found, c) h.
      let db = Pool.asked_once w.db in
      let (done, same) = query-resolved (set_state id state patch) w.db tt (returned h) in
      (
        _,
        ap (λ (d : Db). row id d.facts) same ∙ (set_state-row id state patch db r found).0 done,
        parked,
      );
}

module _ (services : Services) (fact : FactRow) where
  abbrev Here : Db → Type 0
  Here = IsStored fact.id

  keeps : Keeps fact.id Here
  keeps = IsStored-Keeps fact.id

  Ends-try : Ends (On Here) (Parked fact.id) (steps services fact)
  Ends-try =
      Ends-steps Here (Parked fact.id) services fact keeps (λ state patch terminal.
        Ends-set_state fact.id state patch (terminal-parked state terminal))

  Ends-park : (e : Failure) → Ends (On Here) (Parked fact.id) (park services fact e)
  Ends-park e = Ends-then _ _ (On-record_attempt Here fact.id (message e) keeps) (
      Ends-then _ _ (On-count Here _ _) (
        Ends-if (is_retriable e) _ _ (λ _. Ends-set_state fact.id discovered _ refl)
          (λ _. Ends-set_state fact.id failed _ refl)))

  Ends-advance : Ends (On Here) (Parked fact.id) (advance services fact)
  unfolding advance
  Ends-advance = Ends-catch (steps services fact) (park services fact) Ends-try Ends-park

  -- The handler itself is never refused by the database, where the pool answers.
  park-returns :
      (e : Failure) (w : Worker)
      → IsUp w.db
      → Stored fact.id w
      → (park services fact e w).0 ≡ resolved tt
  park-returns e w up s =
      let db = Pool.asked_once w.db in
      let tried = (record_attempt fact.id (message e) db).1 in
      let up' : IsUp tried = record_attempt-IsUp fact.id (message e) db up in
      let (r, found, c) = record_attempt-IsStored fact.id (message e) db s in
      let next = Pool.asked_once tried in
      let patch : Patch = record no_patch { last_error = some (message e) } in
      rw (up w.db.asked, record_attempt-returns fact.id (message e) db s)
        (elim (Bool-cases (is_retriable e)) [
          | inl again ↦ rw (
            again,
            up' tried.asked,
            set_state_plain fact.id discovered patch next r found c refl refl,
          )
          | inr never ↦ rw (
            never,
            up' tried.asked,
            set_state_plain fact.id failed patch next r found c refl refl,
          )
        ])

  handled-returns :
      (r : Settled Failure (Unit {0})) (w : Worker)
      → IsUp w.db
      → Stored fact.id w
      → (handle (park services fact) r w).0 ≡ resolved tt
  handled-returns (resolved u) w up s = refl
  handled-returns (rejected e) w up s = park-returns e w up s

  -- Whatever the services and the pool answer or throw, at every step, `advance` on a stored row keeps
  -- the row stored and the constraints of the table; where it returns, the row is queued again or in a
  -- terminal state, never in flight; and where the pool answers its queries, it returns.
  pub advance-Parked :
      (w : Worker)
      → Stored fact.id w
      → Stored fact.id (advance services fact w).1
        × ((advance services fact w).0 ≡ resolved tt → Parked fact.id (advance services fact w).1)
        × (IsUp w.db → (advance services fact w).0 ≡ resolved tt)
  unfolding advance On
  advance-Parked w s = (
    Ends-advance.kept w s,
    Ends-advance.reached w tt s,
    (λ up.
        handled-returns (steps services fact w).0 (steps services fact w).1
          ((On-steps IsUp services fact (IsUp-Keeps fact.id)).kept w up) (Ends-try.kept w s)),
  )
