-- ===== src/Examples/Rounds.antt =====
-- A worker that starts on the table of a crash, and one round of its loop.
use clearbook.Prelude.{◌≡◌, refl, true, false, some, [], ◌∷◌, All, arith}
use clearbook.Text.{codes}
use clearbook.Async.{resolved, rejected}
use clearbook.Async.Returns.{Resolves}
use clearbook.Db.{requeue_stranded}
use clearbook.Db.Pool
use clearbook.Db.Queries.{IsUp}
use clearbook.Db.Rows.{IsConsistent}
use clearbook.Db.Keys.{IsKeyed}
use clearbook.Watch.Reaches.{scan-IsAt}
use clearbook.Worker.{Failure, message}
use clearbook.Worker.Discover.{DiscoveredChain, Attested, resolve_chain_key, discover_chains}
use clearbook.Worker.Tick.{
  Runtime, Environment, Setup, Enforcer, tick, run_tick, run, build_runtime, runtime_of,
}
use clearbook.Worker.Tick.Queued.{IsCalm}
use clearbook.Worker.Tick.Calm.{requeue-IsCalm}
use clearbook.Worker.Tick.Loop.{run-IsCalm}
use clearbook.Worker.Tick.Progress.{IsAdvanced}
use clearbook.Worker.Tick.Rounds.{scanned, claimed, run_tick-IsAdvanced}
use clearbook.Worker.Tick.Reports.{served, run_tick-served}
use clearbook.Worker.Tick.Isolation.{IsAlike, run_tick-IsAlike}
use clearbook.Examples.Tables.{table, table-IsConsistent, table-IsKeyed}
use clearbook.Examples.Watches.{source, config}
use clearbook.Examples.Pipeline.{services}
use clearbook.Examples.Sweeps.{node}

abbrev setup : Setup
setup = record { chain_id = 11155111; watch = config; is_strict = false }

abbrev sepolia : DiscoveredChain
sepolia = record {
  chain_key = 1;
  chain_id = 11155111;
  chain_encoding = 1;
  chain_name_raw = codes "0x00";
}

abbrev enforcer : Enforcer
enforcer = record { refused = []; history = [] }

abbrev environment : Environment
environment = record {
  attestation = resolved (record { height = 9; exists = true });
  block_number = resolved 12;
  source = source;
  services = services;
  node = node;
  now = codes "2026-01-01T00:00:00.000Z";
}

-- The attestation cannot be read in this round.
abbrev cut_off : Environment
cut_off = record environment { attestation = rejected (codes "timeout") }

abbrev fresh : Runtime
fresh =
    (runtime_of (some enforcer) (codes "2026-01-01") sepolia
      (requeue_stranded (Pool.asked_once table)).1).1

started :
    build_runtime
      (resolved (some (sepolia ∷ [])))
      11155111
      table
      (some enforcer)
      (codes "2026-01-01")
    ≡ resolved (sepolia, fresh)
unfolding build_runtime resolve_chain_key discover_chains requeue_stranded
started = refl

run-IsCalm_example :
    ((run setup (environment ∷ cut_off ∷ environment ∷ []) fresh).0 ≡ resolved tt)
    × IsConsistent (run setup (environment ∷ cut_off ∷ environment ∷ []) fresh).1.worker.db.facts
    × IsKeyed (run setup (environment ∷ cut_off ∷ environment ∷ []) fresh).1.worker.db
    × (IsUp table → IsCalm (run setup (environment ∷ cut_off ∷ environment ∷ []) fresh).1.worker.db)
run-IsCalm_example =
    run-IsCalm setup (resolved (some (sepolia ∷ []))) table (some enforcer) (codes "2026-01-01")
      (sepolia, fresh) (environment ∷ cut_off ∷ environment ∷ []) table-IsConsistent table-IsKeyed
      started

fresh-IsCalm : IsCalm fresh.worker.db
unfolding requeue_stranded
fresh-IsCalm = requeue-IsCalm (Pool.asked_once table) table-IsConsistent (λ n. refl)

-- The scan of the round returns.
scan_returns : Resolves (scanned setup environment 9 fresh).0
scan_returns =
    (scan-IsAt source config ((λ a b. (_, refl)), (λ hash. (_, refl))) 9
      (record { db = fresh.worker.db; metrics = fresh.worker.metrics }) (omega arith)
      fresh-IsCalm.2).0

run_tick-IsAdvanced_example :
    All
      (IsAdvanced
        (scanned setup environment 9 fresh).1.db
        (run_tick setup environment fresh).1.worker.db)
      (claimed setup environment 9 fresh)
run_tick-IsAdvanced_example =
    run_tick-IsAdvanced setup environment fresh (record { height = 9; exists = true }) 12
      scan_returns.0 fresh-IsCalm refl refl refl scan_returns.1

run_tick-served_example :
    ((h : Attested)
      → cut_off.attestation ≡ resolved h
      → h.exists ≡ true
      → (tick setup cut_off fresh).0 ≡ resolved tt
      → served (run_tick setup cut_off fresh).1 ≡ some 200)
    × ((h : Attested)
        → cut_off.attestation ≡ resolved h
        → h.exists ≡ false
        → (served (run_tick setup cut_off fresh).1 ≡ some 503)
          × ((run_tick setup cut_off fresh).1.health.last_error
              ≡ some (codes "no attestations for chain")))
    × ((e : Failure)
        → (tick setup cut_off fresh).0 ≡ rejected e
        → (served (run_tick setup cut_off fresh).1 ≡ some 503)
          × ((run_tick setup cut_off fresh).1.health.last_error ≡ some (message e)))
run_tick-served_example = run_tick-served setup cut_off fresh

run_tick-IsAlike_example : IsAlike (run_tick setup environment fresh) (
    run_tick setup
      (record environment { node = record node { block_number = λ h. rejected [] } })
      fresh)
run_tick-IsAlike_example =
    run_tick-IsAlike setup environment (record node { block_number = λ h. rejected [] }) fresh
