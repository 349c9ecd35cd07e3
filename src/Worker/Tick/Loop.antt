-- ===== src/Worker/Tick/Loop.antt =====
-- The loop of `main` from a start on any database, and what it leaves between two rounds.
use mathlib.Core.Path.{subst}
use clearbook.Prelude.{sym, ℕ, ◌≡◌, refl, not, Option, some, List, [], ◌∷◌}
use clearbook.Text.{Text}
use clearbook.Async.{Settled, resolved, rejected, handle, for_each}
use clearbook.Async.Preserves.{
  Preserves, Preserves-bind, Preserves-then, Preserves-if, Preserves-catch, Preserves-for_each,
}
use clearbook.Db.{Db, FactRow, get_cursor, claim_next, requeue_stranded}
use clearbook.Db.Pool
use clearbook.Db.Queries.{IsUp, query-resolved}
use clearbook.Db.Rows.{IsConsistent}
use clearbook.Db.Keys.{IsKeyed, requeue-IsKeyed}
use clearbook.Watch.{scan}
use clearbook.Watch.Keeps
use clearbook.Worker.{Failure, message}
use clearbook.Worker.Advance.{advance}
use clearbook.Worker.Advance.Keeps.{On, On-advance}
use clearbook.Worker.Advance.Ends.{Consistent-advances}
use clearbook.Worker.Health.{no_change, update, update_chain, degraded}
use clearbook.Worker.Discover.{
  DiscoveredChain, DiscoveryError, latest_attested_height, resolve_chain_key,
}
use clearbook.Worker.Tick.{
  Enforcer, Runtime, Environment, Setup, watching, working, report, with_store, is_discovered,
  take_queued, tick_at, tick, run_tick, run, started_on, runtime_of, build_runtime, chain_report,
}
use clearbook.Worker.Tick.Keeps.{Has, Has-answer, Has-load, Has-report, Has-rest}
use clearbook.Worker.Tick.Queued.{IsCalm, advance_each-IsCalm, claim_next-IsPresent}
use clearbook.Worker.Tick.Calm.{
  IsCalm-Keeps, Consistent, Consistent-Keeps, requeue-IsConsistent, requeue-IsCalm,
}

-- A property of the database that a scan keeps and that the queue keeps.
module _ (setup : Setup) (env : Environment) (T : Db → Type 0) (keeps : Keeps.Keeps T)
    (taken : Preserves (Has T) (take_queued setup env)) where
  Has-scan : (height : ℕ) → Preserves (Has T) (watching (scan env.source setup.watch height))
  unfolding Has Keeps.On
  Has-scan height = record {
    kept = λ rt h.
        (Keeps.On-scan T env.source setup.watch keeps height).kept
          (record { db = rt.worker.db; metrics = rt.worker.metrics }) h;
  }

  Has-tick_at : (height : ℕ) → Preserves (Has T) (tick_at setup env height)
  Has-tick_at height = Preserves-bind _ _ (Has-answer T env.block_number) (λ source_head.
      Preserves-then _ _ (Has-scan height) (
        Preserves-bind _ _ (Has-load T keeps.ask (get_cursor setup.watch.chain_key)) (λ cursor.
          Preserves-then _ _
            (Has-report T (
              update_chain setup.watch.chain_key
                (chain_report setup env height source_head cursor)))
            (Preserves-then _ _ taken (Has-rest T setup env keeps.ask)))))

  Has-tick : Preserves (Has T) (tick setup env)
  unfolding tick
  Has-tick = Preserves-bind _ _ (Has-answer T (latest_attested_height env.attestation)) (λ attested.
      Preserves-if (not attested.exists) _ _ (λ _. Has-report T _)
        (λ _. Has-tick_at attested.height))

  Has-run_tick : Preserves (Has T) (run_tick setup env)
  unfolding run_tick
  Has-run_tick = Preserves-catch _ _ Has-tick (λ e. Has-report T _)

module _ (setup : Setup) (env : Environment) where
  -- With a pool that answers, the queue leaves nothing in flight.
  Calm-take_queued : Preserves (Has IsCalm) (take_queued setup env)
  unfolding Has take_queued
  Calm-take_queued = record {
    kept = λ rt h.
        let db = Pool.asked_once rt.worker.db in
        let worker = record rt.worker { db = db } in
        rw (h.2 rt.worker.db.asked)
          (advance_each-IsCalm env.services _ worker h (claim_next-IsPresent is_discovered 5 db)).1;
  }

  -- With any pool, it keeps the constraints.
  On-Has-Consistent :
      (rows : List FactRow)
      → Preserves (Has Consistent) (working (for_each (advance env.services) rows))
  unfolding Has On
  On-Has-Consistent rows = record {
    kept = λ rt h.
        (Preserves-for_each {P = On Consistent} (advance env.services) rows
            (λ fact. On-advance Consistent env.services fact (Consistent-advances fact.id))).kept
          rt.worker h;
  }

  Consistent-take_queued : Preserves (Has Consistent) (take_queued setup env)
  unfolding take_queued
  Consistent-take_queued =
      Preserves-bind _ _ (Has-load Consistent (λ db c. c) (claim_next is_discovered 5))
        On-Has-Consistent

  -- What a round throws is caught: the round returns.
  caught :
      (r : Settled Failure (Unit {0})) (rt : Runtime)
      → (handle
          (λ e.
            report
              (update (record no_change { status = some degraded; last_error = some (message e) })))
          r
          rt).0
        ≡ resolved tt
  caught (resolved u) rt = refl
  caught (rejected e) rt = refl

  run_tick-returns : (rt : Runtime) → (run_tick setup env rt).0 ≡ resolved tt
  unfolding run_tick
  run_tick-returns rt = caught (tick setup env rt).0 (tick setup env rt).1

run-Has :
    (setup : Setup) (T : Db → Type 0) (envs : List Environment) (rt : Runtime)
    → ((env : Environment) → Preserves (Has T) (run_tick setup env))
    → Has T rt
    → ((run setup envs rt).0 ≡ resolved tt) × Has T (run setup envs rt).1
unfolding run
run-Has setup T [] rt k h = (refl, h)
run-Has setup T (env ∷ envs) rt k h =
    rw (run_tick-returns setup env rt)
      (run-Has setup T envs (run_tick setup env rt).1 k ((k env).kept rt h))

-- A start has asked the store to queue again what was stranded, and it did.
with_store-Has :
    (T : Db → Type 0) (challenger : Option Enforcer) (now : Text) (chain : DiscoveredChain)
    (asked : Settled Text ℕ × Db) (started : DiscoveredChain × Runtime)
    → ((n : ℕ) → asked.0 ≡ resolved n → T asked.1)
    → with_store challenger now chain asked ≡ resolved started
    → Has T started.1
unfolding Has
with_store-Has T challenger now chain (rejected e, db) started k h = cc
with_store-Has T challenger now chain (resolved n, db) started k h =
    let same : runtime_of challenger now chain db ≡ started = cc in
    subst (λ x. T x.1.worker.db) same (k n refl)

started-Has :
    (T : Db → Type 0) (db : Db) (challenger : Option Enforcer) (now : Text)
    (chain : Settled DiscoveryError DiscoveredChain) (started : DiscoveredChain × Runtime)
    → T (requeue_stranded (Pool.asked_once db)).1
    → started_on db challenger now chain ≡ resolved started
    → Has T started.1
started-Has T db challenger now (rejected e) started h e' = cc
started-Has T db challenger now (resolved chain) started h e' =
    with_store-Has T challenger now chain (Pool.requeue_stranded db) started
      (λ n done.
        let (ran, same) = query-resolved (Pool.always requeue_stranded) db n done in
        subst T (sym same) h)
      e'

requeued-Consistent :
    (db : Db) → Consistent db → Consistent (requeue_stranded (Pool.asked_once db)).1
unfolding requeue_stranded
requeued-Consistent db (c, k) =
    (requeue-IsConsistent db.facts c, requeue-IsKeyed (Pool.asked_once db) k)

-- From a start on any database that keeps its unique constraints and its primary key, whatever a crash or
-- an outage left in it, and through any number of rounds in any environments, with calls that answer or
-- throw as they may: the loop goes on after every round, and then the constraints and the key hold. Where the pool of the store answers its
-- queries, no fact is in flight then, every one being queued or in a terminal state.
pub run-IsCalm :
    (setup : Setup) (supported : Settled Text (Option (List DiscoveredChain))) (db : Db)
    (challenger : Option Enforcer) (now : Text) (started : DiscoveredChain × Runtime)
    (envs : List Environment)
    → IsConsistent db.facts
    → IsKeyed db
    → build_runtime supported setup.chain_id db challenger now ≡ resolved started
    → ((run setup envs started.1).0 ≡ resolved tt)
      × IsConsistent (run setup envs started.1).1.worker.db.facts
      × IsKeyed (run setup envs started.1).1.worker.db
      × (IsUp db → IsCalm (run setup envs started.1).1.worker.db)
unfolding Has build_runtime
run-IsCalm setup supported db challenger now started envs c k h =
    let chain = resolve_chain_key supported setup.chain_id in
    let (goes_on, kept) =
      run-Has setup Consistent envs started.1
        (λ env.
          Has-run_tick setup env Consistent Consistent-Keeps (Consistent-take_queued setup env))
        (started-Has Consistent db challenger now chain started (requeued-Consistent db (c, k))
          h) in
    (
      goes_on,
      kept.0,
      kept.1,
      λ up.
          (run-Has setup IsCalm envs started.1
            (λ env. Has-run_tick setup env IsCalm IsCalm-Keeps (Calm-take_queued setup env))
            (started-Has IsCalm db challenger now chain started
              (requeue-IsCalm (Pool.asked_once db) c up) h)).1,
    )
