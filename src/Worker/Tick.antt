-- ===== src/Worker/Tick.antt =====
-- `buildRuntime`, `tick` and the loop of `main` (worker/src/main.ts). What the chains and the services
-- say during one tick is an `Environment`, another one for every tick; the clock is among it.
pub mod Keeps
pub mod Queued
pub mod Calm
pub mod Loop
pub mod Progress
pub mod Rounds
pub mod Reports
pub mod Isolation
use clearbook.Prelude.{
  ℕ, Bool, true, false, not, Option, none, some, List, [], ◌∷◌, if◌then◌else◌, sub_ℕ, ℤ,
}
use clearbook.Text.{Text, codes}
use clearbook.Text.Assoc.{TextSet}
use clearbook.Async.{
  Settled, resolved, rejected, Exec, pure, throw, read, modify, catch, for_each, ◌>>=◌, ◌>>◌,
}
use clearbook.Metrics.{Metrics}
use clearbook.Db.{
  Db, FactState, FactRow, discovered, waiting_attestation, proved, precheck_failed, submitted,
  confirmed, failed,
}
use clearbook.Db.Pool
use clearbook.Watch.{Source, WatchConfig, Scan, scan}
use clearbook.Challenger.Node.{Node, History, Challenger}
use clearbook.Challenger.Act.{Outcome}
use clearbook.Challenger.Sweep.{sweep}
use clearbook.Worker.{Services, Worker, Calls, Failure, thrown, message, as_thrown, store}
use clearbook.Worker.Advance.{advance}
use clearbook.Worker.Health.{
  HealthState, HealthPatch, no_change, ChainHealth, new_health, update, update_chain, ok, degraded,
}
use clearbook.Worker.Discover.{
  DiscoveredChain, DiscoveryError, Attested, resolve_chain_key, latest_attested_height,
}

-- What the reference challenger keeps: the pairs it has given up, and the calls made of its node.
pub record Enforcer : Type 0 where
  pub refused : TextSet
  pub history : History

pub record Runtime : Type 0 where
  pub worker : Worker
  pub challenger : Option Enforcer
  pub health : HealthState

pub record Environment : Type 0 where
  pub attestation : Settled Text Attested
  pub block_number : Settled Text ℕ
  pub source : Source
  pub services : Services
  pub node : Node
  pub now : Text

-- The parts of the runtime that do not change.
pub record Setup : Type 0 where
  pub chain_id : ℕ
  pub watch : WatchConfig
  pub is_strict : Bool

abbrev pub answer : {A : Type 0} → Settled Text A → Exec Failure Runtime A
answer r rt = (as_thrown r, rt)

-- A method of the watcher, of the worker and of the challenger, on the runtime.
abbrev pub watching : {A : Type 0} → Exec Text Scan A → Exec Failure Runtime A
watching m rt =
    let (r, s) = m (record { db = rt.worker.db; metrics = rt.worker.metrics }) in
    let worker = record rt.worker { db = s.db; metrics = s.metrics } in
    (as_thrown r, record rt { worker = worker })

abbrev pub working : {A : Type 0} → Exec Failure Worker A → Exec Failure Runtime A
working m rt = let (r, w) = m rt.worker in (r, record rt { worker = w })

abbrev pub storing : {A : Type 0} → Exec Text Db A → Exec Failure Runtime A
storing m = working (store m)

abbrev pub enforcing : {A : Type 0} → Enforcer → Exec Text Challenger A → Exec Failure Runtime A
enforcing e m rt =
    let (r, c) =
      m (record { refused = e.refused; metrics = rt.worker.metrics; history = e.history }) in
    let worker = record rt.worker { metrics = c.metrics } in
    let challenger = some (record { refused = c.refused; history = c.history }) in
    (as_thrown r, record rt { worker = worker; challenger = challenger })

abbrev pub report : (HealthState → HealthState) → Exec Failure Runtime (Unit {0})
report f = modify (λ rt. record rt { health = f rt.health })

abbrev pub is_discovered : FactState → Bool
is_discovered discovered = true
is_discovered waiting_attestation = false
is_discovered proved = false
is_discovered precheck_failed = false
is_discovered submitted = false
is_discovered confirmed = false
is_discovered failed = false

-- The state of a group of `countByState`.
abbrev pub same_state : FactState → FactState → Bool
same_state discovered s = is_discovered s
same_state waiting_attestation s = elim s [ waiting_attestation ↦ true | _ ↦ false ]
same_state proved s = elim s [ proved ↦ true | _ ↦ false ]
same_state precheck_failed s = elim s [ precheck_failed ↦ true | _ ↦ false ]
same_state submitted s = elim s [ submitted ↦ true | _ ↦ false ]
same_state confirmed s = elim s [ confirmed ↦ true | _ ↦ false ]
same_state failed s = elim s [ failed ↦ true | _ ↦ false ]

-- `cursor == null ? null : attested.height - cursor`
abbrev pub lag_of : ℕ → Option ℕ → Option ℤ
lag_of height none = none
lag_of height (some cursor) = some (sub_ℕ height cursor)

module _ (setup : Setup) (env : Environment) where
  abbrev pub chain_report : ℕ → ℕ → Option ℕ → ChainHealth
  chain_report height source_head cursor = record {
    chain_id = some setup.chain_id;
    attested_height = some height;
    source_head = some source_head;
    cursor = some cursor;
    cursor_lag = some (lag_of height cursor);
  }

  -- The sweep, where there is a challenger: what it throws is logged and no more.
  abbrev pub sweep_with : Option Enforcer → Exec Failure Runtime (Unit {0})
  sweep_with none = pure tt
  sweep_with (some e) =
      catch (enforcing e (sweep env.node setup.is_strict) >> pure tt) (λ failure. pure tt)

  abbrev pub enforce : Exec Failure Runtime (Unit {0})
  enforce rt = sweep_with rt.challenger rt

  abbrev pub all_well : Bool → (FactState → Option ℕ) → HealthPatch
  all_well db_connected facts_by_state = record no_change {
    status = some ok;
    last_scan_at = some env.now;
    db_connected = some db_connected;
    facts_by_state = some facts_by_state;
  }

  abbrev pub finish : Exec Failure Runtime (Unit {0})
  finish = do
    db_connected ← storing Pool.ping
    counts ← storing Pool.count_by_state
    report (update (all_well db_connected (λ state. counts (same_state state))))

  -- The queue, at most five rows of it.
  unfoldable pub take_queued : Exec Failure Runtime (Unit {0})
  take_queued = do
    pending ← storing (Pool.claim_next is_discovered 5)
    working (for_each (advance env.services) pending)

  abbrev pub after_scan : ℕ → ℕ → Exec Failure Runtime (Unit {0})
  after_scan height source_head = do
    cursor ← storing (Pool.get_cursor setup.watch.chain_key)
    report (update_chain setup.watch.chain_key (chain_report height source_head cursor))
    take_queued
    enforce
    finish

  abbrev pub from_head : ℕ → ℕ → Exec Failure Runtime (Unit {0})
  from_head height source_head =
      watching (scan env.source setup.watch height) >> after_scan height source_head

  abbrev pub tick_at : ℕ → Exec Failure Runtime (Unit {0})
  tick_at height = answer env.block_number >>= from_head height

  abbrev pub on_attested : Attested → Exec Failure Runtime (Unit {0})
  on_attested attested =
      if not attested.exists
      then report (
          update (record no_change {
            status = some degraded;
            last_error = some (codes "no attestations for chain");
          }))
      else tick_at attested.height

  unfoldable pub tick : Exec Failure Runtime (Unit {0})
  tick = do attested ← answer (latest_attested_height env.attestation); on_attested attested

  -- One round of the loop of `main`.
  unfoldable pub run_tick : Exec Failure Runtime (Unit {0})
  unfolding tick
  run_tick = catch tick (λ e.
      report (update (record no_change { status = some degraded; last_error = some (message e) })))

-- The loop, for as many rounds as there are environments.
unfoldable pub run : Setup → List Environment → Exec Failure Runtime (Unit {0})
unfolding run_tick
run setup = for_each (run_tick setup)

-- Why `buildRuntime` throws: the chain is not found, or the store cannot be asked.
pub data StartError : Type 0 where
  no_chain : DiscoveryError → StartError
  no_store : Text → StartError

-- What `buildRuntime` does before the loop, from what the database holds: the chain is resolved, and
-- what a crash stranded is queued again.
abbrev pub runtime_of : Option Enforcer → Text → DiscoveredChain → Db → DiscoveredChain × Runtime
runtime_of challenger now chain db = (
  chain,
  record {
    worker = record { db = db; metrics = record { counters = []; samples = [] }; calls = [] };
    challenger = challenger;
    health = new_health now;
  },
)

abbrev pub with_store :
    Option Enforcer
    → Text
    → DiscoveredChain
    → Settled Text ℕ × Db
    → Settled StartError (DiscoveredChain × Runtime)
with_store challenger now chain (rejected e, db) = rejected (no_store e)
with_store challenger now chain (resolved requeued, db) =
    resolved (runtime_of challenger now chain db)

abbrev pub started_on :
    Db
    → Option Enforcer
    → Text
    → Settled DiscoveryError DiscoveredChain
    → Settled StartError (DiscoveredChain × Runtime)
started_on db challenger now (rejected e) = rejected (no_chain e)
started_on db challenger now (resolved chain) =
    with_store challenger now chain (Pool.requeue_stranded db)

unfoldable pub build_runtime :
    Settled Text (Option (List DiscoveredChain))
    → ℕ
    → Db
    → Option Enforcer
    → Text
    → Settled StartError (DiscoveredChain × Runtime)
unfolding resolve_chain_key
build_runtime supported chain_id db challenger now =
    started_on db challenger now (resolve_chain_key supported chain_id)
