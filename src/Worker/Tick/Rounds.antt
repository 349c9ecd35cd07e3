-- ===== src/Worker/Tick/Rounds.antt =====
-- One round of the loop, where the calls before the queue answer.
use mathlib.Core.Path.{subst}
use clearbook.Prelude.{ℕ, ◌≡◌, sym, ap, ◌∙◌, true, some, List, All, if◌then◌else◌}
use clearbook.Text.{Text}
use clearbook.Async.{Settled, resolved, rejected, read, after, handle, ◌>>◌}
use clearbook.Db.{Db, FactRow, claim_next, get_cursor}
use clearbook.Db.Pool
use clearbook.Db.Queries.{IsUp}
use clearbook.Watch.{Scan, scan}
use clearbook.Watch.Keeps
use clearbook.Worker.{Failure, message, as_thrown}
use clearbook.Worker.Health.{HealthState, no_change, update, update_chain, degraded}
use clearbook.Worker.Discover.{Attested, latest_attested_height}
use clearbook.Worker.Tick.{
  Runtime, Environment, Setup, report, is_discovered, enforce, finish, take_queued, after_scan,
  from_head, tick_at, on_attested, tick, chain_report, run_tick,
}
use clearbook.Worker.Tick.Keeps.{Has, Has-rest}
use clearbook.Worker.Tick.Queued.{IsCalm, claim_next-IsPresent}
use clearbook.Worker.Tick.Calm.{IsCalm-Keeps}
use clearbook.Worker.Tick.Progress.{IsAdvanced, each-IsAdvanced}

module _ (setup : Setup) (env : Environment) where
  -- The watcher's part of a runtime, and what its scan comes to.
  abbrev pub scanned : ℕ → Runtime → Settled Text ℕ × Scan
  scanned height rt =
      scan env.source setup.watch height (record { db = rt.worker.db; metrics = rt.worker.metrics })

  -- What the round takes from the queue, after the scan.
  abbrev pub claimed : ℕ → Runtime → List FactRow
  claimed height rt = claim_next is_discovered 5 (scanned height rt).1.db

  -- Nothing after the queue touches the database, nor does the handler of the loop.
  rest-Has :
      (T : Db → Type 0) (ask : (db : Db) → T db → T (Pool.asked_once db))
      (r : Settled Failure (Unit {0})) (rt : Runtime)
      → T rt.worker.db
      → T (after (λ _. enforce setup env >> finish setup env) r rt).1.worker.db
  unfolding Has
  rest-Has T ask (resolved u) rt h = (Has-rest T setup env ask).kept rt h
  rest-Has T ask (rejected e) rt h = h

  caught-Has :
      (T : Db → Type 0) (f : Failure → HealthState → HealthState) (r : Settled Failure (Unit {0}))
      (rt : Runtime)
      → T rt.worker.db
      → T (handle (λ e. report (f e)) r rt).1.worker.db
  caught-Has T f (resolved u) rt h = h
  caught-Has T f (rejected e) rt h = h

  -- The rows of the queue are advanced, one after the other.
  taken-IsAdvanced :
      (rt : Runtime)
      → IsCalm rt.worker.db
      → All
          (IsAdvanced rt.worker.db (take_queued setup env rt).1.worker.db)
          (claim_next is_discovered 5 rt.worker.db)
  unfolding take_queued claim_next
  taken-IsAdvanced rt calm =
      let db = Pool.asked_once rt.worker.db in
      rw (calm.2 rt.worker.db.asked) (
        each-IsAdvanced env.services (claim_next is_discovered 5 db) (record rt.worker { db = db })
          calm (claim_next-IsPresent is_discovered 5 db))

  -- The runtime when the queue is asked, after a scan that left `s`.
  abbrev queue_at : ℕ → ℕ → Runtime → Scan → Runtime
  queue_at height source_head rt s =
      let cursor = get_cursor setup.watch.chain_key s.db in
      let worker = record rt.worker { db = Pool.asked_once s.db; metrics = s.metrics } in
      let patch = chain_report setup env height source_head cursor in
      record rt { worker = worker; health = update_chain setup.watch.chain_key patch rt.health }

  tick_at-taken :
      (height source_head n : ℕ) (rt : Runtime)
      → env.block_number ≡ resolved source_head
      → (scanned height rt).0 ≡ resolved n
      → IsUp (scanned height rt).1.db
      → tick_at setup env height rt
        ≡ (take_queued setup env >> (enforce setup env >> finish setup env))
            (queue_at height source_head rt (scanned height rt).1)
  unfolding get_cursor
  tick_at-taken height source_head n rt head answered up =
      let s = (scanned height rt).1 in
      let worker = record rt.worker { db = s.db; metrics = s.metrics } in
      ap (λ r. after (from_head setup env height) (as_thrown r) rt) head
      ∙ ap
          (λ r.
            after {A = ℕ} (λ _. after_scan setup env height source_head) (as_thrown r)
              (record rt { worker = worker }))
          answered
      ∙ ap
          (λ reply.
            after
              (λ cursor.
                report (
                  update_chain setup.watch.chain_key
                    (chain_report setup env height source_head cursor))
                >> (take_queued setup env >> (enforce setup env >> finish setup env)))
              (as_thrown
                (Pool.reply_of reply (read (get_cursor setup.watch.chain_key))
                  (Pool.asked_once s.db)).0)
              (record rt {
                worker = record rt.worker {
                  db =
                      (Pool.reply_of reply (read (get_cursor setup.watch.chain_key))
                        (Pool.asked_once s.db)).1;
                  metrics = s.metrics;
                };
              }))
          (up s.db.asked)

  tick_at-IsAdvanced :
      (height source_head n : ℕ) (rt : Runtime)
      → env.block_number ≡ resolved source_head
      → (scanned height rt).0 ≡ resolved n
      → IsCalm rt.worker.db
      → All
          (IsAdvanced (scanned height rt).1.db (tick_at setup env height rt).1.worker.db)
          (claimed height rt)
  unfolding Keeps.On get_cursor claim_next
  tick_at-IsAdvanced height source_head n rt head answered calm =
      let s = (scanned height rt).1 in
      let calm' : IsCalm s.db =
        (Keeps.On-scan IsCalm env.source setup.watch IsCalm-Keeps height).kept
          (record { db = rt.worker.db; metrics = rt.worker.metrics }) calm in
      let queue = queue_at height source_head rt s in
      let taken = take_queued setup env queue in
      subst (λ x. All (IsAdvanced s.db x.1.worker.db) (claimed height rt))
        (sym (tick_at-taken height source_head n rt head answered calm'.2))
        (rest-Has (λ db. All (IsAdvanced s.db db) (claimed height rt)) (λ db h. h) taken.0 taken.1
          (taken-IsAdvanced queue calm'))

  pub tick-at :
      (h : Attested) (rt : Runtime)
      → env.attestation ≡ resolved h
      → h.exists ≡ true
      → tick setup env rt ≡ tick_at setup env h.height rt
  unfolding tick latest_attested_height
  tick-at h rt at exists =
      ap (λ r. after (on_attested setup env) (as_thrown (latest_attested_height r)) rt) at
      ∙ ap
          (λ b.
            on_attested setup env (record { height = if b then h.height else 0; exists = b }) rt)
          exists

-- Between rounds without a fact in flight, where the precompile has an attestation, the calls up to the
-- queue answer, and so does the pool of the store: a round makes progress on every fact that it takes.
-- Whatever the proof builder, the precompile and the vault answer or throw, after the round the fact is
-- in a terminal state or has one more attempt counted, at least, than before.
pub run_tick-IsAdvanced :
    (setup : Setup) (env : Environment) (rt : Runtime) (h : Attested) (source_head n : ℕ)
    → IsCalm rt.worker.db
    → env.attestation ≡ resolved h
    → h.exists ≡ true
    → env.block_number ≡ resolved source_head
    → (scanned setup env h.height rt).0 ≡ resolved n
    → All
        (IsAdvanced (scanned setup env h.height rt).1.db (run_tick setup env rt).1.worker.db)
        (claimed setup env h.height rt)
unfolding run_tick
run_tick-IsAdvanced setup env rt h source_head n calm at exists head answered =
    let db = (scanned setup env h.height rt).1.db in
    let rows = claimed setup env h.height rt in
    caught-Has setup env (λ db'. All (IsAdvanced db db') rows)
      (λ e. update (record no_change { status = some degraded; last_error = some (message e) }))
      (tick setup env rt).0 (tick setup env rt).1
      (subst (λ x. All (IsAdvanced db x.1.worker.db) rows) (sym (tick-at setup env h rt at exists))
        (tick_at-IsAdvanced setup env h.height source_head n rt head answered calm))
