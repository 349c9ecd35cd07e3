-- ===== src/Worker/Advance/Progress.antt =====
-- Where `advance` returns it has made progress on its row: it is in a terminal state, or one more
-- attempt is counted.
use mathlib.Core.Path.{subst}
use clearbook.Prelude.{sym, ◌∙◌, ap, ℕ, ◌+◌, ◌≤◌, ◌<◌, ◌≡◌, ◌⊎◌, true, some, arith, inl, inr}
use clearbook.Text.{Text}
use clearbook.Async.{Exec, resolved}
use clearbook.Async.Preserves.{Preserves}
use clearbook.Async.Ends.{Ends, Ends-catch}
use clearbook.Async.Leads.{Leads, Leads-then, Leads-if}
use clearbook.Db.{
  FactState, FactRow, Db, Patch, row, set_state, record_attempt, discovered, failed, patched,
}
use clearbook.Db.Pool
use clearbook.Db.Queries.{query-resolved}
use clearbook.Db.Rows.{IsConsistent}
use clearbook.Db.Writes.{
  set_state-row, set_state-row_self, set_state-IsStored, record_attempt-row,
  record_attempt-IsStored,
}
use clearbook.Db.Queue.{is_terminal}
use clearbook.Worker.{Failure, message, Services, Worker, store}
use clearbook.Worker.Advance.{steps, park, is_retriable, advance}
use clearbook.Worker.Advance.Keeps.{Keeps, On, On-set_state, On-count, On-park}
use clearbook.Worker.Advance.Finishes.{Ends-steps}
use clearbook.Worker.Advance.Ends.{returned}

-- The row is there with at least `n` attempts, and the constraints of the table hold.
abbrev pub IsStoredWith : ℕ → ℕ → Db → Type 0
IsStoredWith n id db =
    (r : FactRow) × (row id db.facts ≡ some r) × (n ≤ r.attempts) × IsConsistent db.facts

-- The row is in a terminal state, or has more than `n` attempts.
abbrev pub IsTried : ℕ → ℕ → Db → Type 0
IsTried n id db =
    (r : FactRow) × (row id db.facts ≡ some r) × ((is_terminal r.state ≡ true) ⊎ (n < r.attempts))

pub IsStoredWith-Keeps : (n id : ℕ) → Keeps id (IsStoredWith n id)
IsStoredWith-Keeps n id = record {
  ask = λ db h. h;
  set = λ state patch db (r, e, le, c).
      let (r', e', c') = set_state-IsStored id state patch db (r, e, c) in
      elim (set_state-row_self id state patch db r e) [
        | inl new ↦ (patched state patch r, new, le, c')
        | inr old ↦ (r, old, le, c')
      ];
  attempt = λ error db (r, e, le, c).
      let (r', e', c') = record_attempt-IsStored id error db (r, e, c) in
      (_, record_attempt-row id error db r e c, omega arith, c');
}

-- A terminal state that was written.
Ends-terminal :
    (n id : ℕ) (state : FactState) (patch : Patch)
    → is_terminal state ≡ true
    → Ends (On (IsStoredWith n id)) (On (IsTried n id)) (store (Pool.set_state id state patch))
unfolding On
Ends-terminal n id state patch terminal = record {
  kept = (On-set_state (IsStoredWith n id) id state patch (IsStoredWith-Keeps n id)).kept;
  reached = λ w a (r, e, le, c) h.
      let db = Pool.asked_once w.db in
      let (done, same) = query-resolved (set_state id state patch) w.db tt (returned h) in
      (
        _,
        ap (λ (d : Db). row id d.facts) same ∙ (set_state-row id state patch db r e).0 done,
        inl terminal,
      );
}

-- From a state on, what is kept is still there at a return.
Leads-kept :
    {S A : Type 0} {E : Type 0} (P : S → Type 0) (m : Exec E S A) → Preserves P m → Leads P P m
Leads-kept P m k = record { lead = λ s a h e. k.kept s h }

module _ (n : ℕ) (services : Services) (fact : FactRow) where
  abbrev Before : Db → Type 0
  Before = IsStoredWith n fact.id

  abbrev After : Db → Type 0
  After = IsStoredWith (n + 1) fact.id

  Leads-attempt :
      (error : Text) → Leads (On Before) (On After) (store (Pool.record_attempt fact.id error))
  unfolding On
  Leads-attempt error = record {
    lead = λ w a (r, e, le, c) h.
        let db = Pool.asked_once w.db in
        let (done, same) = query-resolved (record_attempt fact.id error) w.db tt (returned h) in
        let (r', e', c') = record_attempt-IsStored fact.id error db (r, e, c) in
        (
          _,
          ap (λ (d : Db). row fact.id d.facts) same ∙ record_attempt-row fact.id error db r e c,
          omega arith,
          subst (λ (d : Db). IsConsistent d.facts) (sym same) c',
        );
  }

  Leads-park : (e : Failure) → Leads (On Before) (On After) (park services fact e)
  Leads-park e =
      let keeps = IsStoredWith-Keeps (n + 1) fact.id in
      Leads-then _ _ (Leads-attempt (message e)) (
        Leads-then _ _ (Leads-kept (On After) _ (On-count After _ _)) (
          Leads-if (is_retriable e) _ _
            (Leads-kept (On After) _ (On-set_state After fact.id discovered _ keeps))
            (Leads-kept (On After) _ (On-set_state After fact.id failed _ keeps))))

  Ends-park : (e : Failure) → Ends (On Before) (On (IsTried n fact.id)) (park services fact e)
  unfolding On
  Ends-park e = record {
    kept = (On-park Before services fact (IsStoredWith-Keeps n fact.id) e).kept;
    reached = λ w a h returns.
        let (r, found, le, c) = (Leads-park e).lead w a h returns in (r, found, inr (omega arith));
  }

  -- Whatever the services and the pool answer or throw: where `advance` returns, the row is in a terminal
  -- state or has more attempts than before.
  pub advance-IsTried :
      (w : Worker)
      → IsStoredWith n fact.id w.db
      → (advance services fact w).0 ≡ resolved tt
      → IsTried n fact.id (advance services fact w).1.db
  unfolding advance On
  advance-IsTried w h returns =
      let ends : Ends (On Before) (On (IsTried n fact.id)) (advance services fact) =
        Ends-catch (steps services fact) (park services fact)
          (Ends-steps Before (On (IsTried n fact.id)) services fact (IsStoredWith-Keeps n fact.id)
            (Ends-terminal n fact.id))
          Ends-park in
      ends.reached w tt h returns
