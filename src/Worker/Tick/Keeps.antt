-- ===== src/Worker/Tick/Keeps.antt =====
-- What the steps of a round keep that write nothing to the database.
use clearbook.Prelude.{Option, none, some, false}
use clearbook.Text.{Text}
use clearbook.Async.{Settled, Exec, read, ◌>>◌}
use clearbook.Async.Preserves.{
  Preserves, Preserves-pure, Preserves-bind, Preserves-then, Preserves-catch,
}
use clearbook.Db.{Db}
use clearbook.Db.Pool
use clearbook.Db.Queries.{query-kept}
use clearbook.Challenger.Sweep.{sweep}
use clearbook.Worker.Health.{HealthState}
use clearbook.Worker.Tick.{
  Enforcer, Runtime, Environment, Setup, answer, storing, enforcing, report, sweep_with, enforce,
  finish,
}

-- A property of the database, of a runtime.
unfoldable pub Has : (Db → Type 0) → Runtime → Type 0
Has T rt = T rt.worker.db

module _ (T : Db → Type 0) where
  pub Has-answer : {A : Type 0} (r : Settled Text A) → Preserves (Has T) (answer r)
  unfolding Has
  Has-answer r = record { kept = λ rt h. h }

  pub Has-storing :
      {A : Type 0} (m : Exec Text Db A) → Preserves T m → Preserves (Has T) (storing m)
  unfolding Has
  Has-storing m p = record { kept = λ rt h. p.kept rt.worker.db h }

  pub Has-report : (f : HealthState → HealthState) → Preserves (Has T) (report f)
  unfolding Has
  Has-report f = record { kept = λ rt h. h }

  module _ (ask : (db : Db) → T db → T (Pool.asked_once db)) where
    pub Has-load : {A : Type 0} (f : Db → A) → Preserves (Has T) (storing (Pool.query (read f)))
    Has-load f =
        Has-storing _ (record { kept = λ db h. query-kept (read f) T db (ask db h) (ask db h) })

    Has-ping : Preserves (Has T) (storing Pool.ping)
    Has-ping = Has-storing Pool.ping (
        Preserves-catch _ _ (record { kept = λ db h. query-kept _ T db (ask db h) (ask db h) })
          (λ e. Preserves-pure false))

  module _ (setup : Setup) (env : Environment)
      (ask : (db : Db) → T db → T (Pool.asked_once db)) where
    Has-sweep : (challenger : Option Enforcer) → Preserves (Has T) (sweep_with setup env challenger)
    unfolding Has
    Has-sweep none = Preserves-pure tt
    Has-sweep (some e) =
        Preserves-catch _ _
          (Preserves-then (enforcing e (sweep env.node setup.is_strict)) _
            (record { kept = λ rt h. h }) (Preserves-pure tt))
          (λ failure. Preserves-pure tt)

    Has-enforce : Preserves (Has T) (enforce setup env)
    Has-enforce = record { kept = λ rt h. (Has-sweep rt.challenger).kept rt h }

    Has-finish : Preserves (Has T) (finish setup env)
    Has-finish =
        Preserves-bind _ _ (Has-ping ask)
          (λ connected. Preserves-bind _ _ (Has-load ask _) (λ counts. Has-report _))

    -- What follows the queue.
    pub Has-rest : Preserves (Has T) (enforce setup env >> finish setup env)
    Has-rest = Preserves-then _ _ Has-enforce Has-finish
