-- ===== src/Worker/Tick/Isolation.antt =====
-- The challenger does not disturb the ingestion: what its node answers or throws is of no consequence
-- for the store, the calls of the pipeline and the health report.
use mathlib.Core.Path.{subst}
use clearbook.Prelude.{ℕ, ◌≡◌, refl, sym, ap, ◌∙◌, Bool, true, false, Option, none, some}
use clearbook.Text.{Text}
use clearbook.Async.{Settled, resolved, rejected, Exec, after, handle, ◌>>◌}
use clearbook.Db.{Db}
use clearbook.Db.Pool
use clearbook.Watch.{scan}
use clearbook.Challenger.Node.{Node}
use clearbook.Challenger.Sweep.{sweep}
use clearbook.Worker.{Failure, message, as_thrown}
use clearbook.Worker.Health.{HealthState, no_change, update, update_chain, degraded}
use clearbook.Worker.Discover.{Attested, latest_attested_height}
use clearbook.Worker.Tick.{
  Enforcer, Runtime, Environment, Setup, watching, storing, enforcing, report, chain_report,
  sweep_with, enforce, finish, take_queued, after_scan, from_head, tick_at, on_attested, tick,
  run_tick,
}

-- Two results with the same value or exception, the same database, calls and health.
abbrev pub IsAlike :
    Settled Failure (Unit {0}) × Runtime → Settled Failure (Unit {0}) × Runtime → Type 0
IsAlike x y =
    (x.0 ≡ y.0)
    × (x.1.worker.db ≡ y.1.worker.db)
    × (x.1.worker.calls ≡ y.1.worker.calls)
    × (x.1.health ≡ y.1.health)

after-IsAlike :
    {A : Type 0} (f g : A → Exec Failure Runtime (Unit {0})) (r : Settled Failure A) (rt : Runtime)
    → ((a : A) (rt' : Runtime) → IsAlike (f a rt') (g a rt'))
    → IsAlike (after f r rt) (after g r rt)
after-IsAlike f g (resolved a) rt k = k a rt
after-IsAlike f g (rejected e) rt k = (refl, refl, refl, refl)

-- Two runtimes with the same database, calls and health.
abbrev Alike : Runtime → Runtime → Type 0
Alike rt rt' =
    (rt.worker.db ≡ rt'.worker.db) × (rt.worker.calls ≡ rt'.worker.calls) × (rt.health ≡ rt'.health)

module _ {A : Type 0} where
  abbrev Same : Settled Failure A × Runtime → Settled Failure A × Runtime → Type 0
  Same x y = (x.0 ≡ y.0) × Alike x.1 y.1

  storing-IsAlike :
      (m : Exec Text Db A) (rt rt' : Runtime) → Alike rt rt' → Same (storing m rt) (storing m rt')
  storing-IsAlike m rt rt' (d, c, h) =
      (ap (λ db. as_thrown (m db).0) d, (ap (λ db. (m db).1) d, c, h))

  follow-IsAlike :
      (f : A → Exec Failure Runtime (Unit {0})) (x y : Settled Failure A × Runtime)
      → Same x y
      → ((a : A) (rt rt' : Runtime) → Alike rt rt' → IsAlike (f a rt) (f a rt'))
      → IsAlike (after f x.0 x.1) (after f y.0 y.1)
  follow-IsAlike f (resolved a, s) (resolved b, t) (r, same) k =
      let at : a ≡ b = cc in subst (λ x. IsAlike (f a s) (f x t)) at (k a s t same)
  follow-IsAlike f (resolved a, s) (rejected e, t) (r, same) k = cc
  follow-IsAlike f (rejected e, s) (resolved b, t) (r, same) k = cc
  follow-IsAlike f (rejected e, s) (rejected e', t) (r, (d, c, h)) k = (cc, d, c, h)

-- What a sweep leaves as it was.
abbrev IsUndisturbed : Runtime → Settled Failure (Unit {0}) × Runtime → Type 0
IsUndisturbed rt x =
    (x.0 ≡ resolved tt)
    × (x.1.worker.db ≡ rt.worker.db)
    × (x.1.worker.calls ≡ rt.worker.calls)
    × (x.1.health ≡ rt.health)

caught-IsUndisturbed :
    {A : Type 0} (r : Settled Failure A) (rt rt' : Runtime)
    → (rt'.worker.db ≡ rt.worker.db)
    → (rt'.worker.calls ≡ rt.worker.calls)
    → (rt'.health ≡ rt.health)
    → IsUndisturbed rt (
        handle {E = Failure} {S = Runtime}
          (λ failure s. (resolved tt, s))
          (after {E = Failure} {S = Runtime} {A = A} (λ _ s. (resolved tt, s)) r rt').0
          (after {E = Failure} {S = Runtime} {A = A} (λ _ s. (resolved tt, s)) r rt').1)
caught-IsUndisturbed (resolved a) rt rt' d c h = (refl, d, c, h)
caught-IsUndisturbed (rejected e) rt rt' d c h = (refl, d, c, h)

module _ (setup : Setup) (env : Environment) where
  sweep-IsUndisturbed :
      (challenger : Option Enforcer) (rt : Runtime)
      → IsUndisturbed rt (sweep_with setup env challenger rt)
  sweep-IsUndisturbed none rt = (refl, refl, refl, refl)
  sweep-IsUndisturbed (some e) rt =
      let swept = enforcing e (sweep env.node setup.is_strict) rt in
      caught-IsUndisturbed swept.0 rt swept.1 refl refl refl

  -- The end of a round reads no more than the store, the calls and the health.
  finish-Alike :
      (rt rt' : Runtime) → Alike rt rt' → IsAlike (finish setup env rt) (finish setup env rt')
  finish-Alike rt rt' same =
      follow-IsAlike _ (storing Pool.ping rt) (storing Pool.ping rt')
        (storing-IsAlike Pool.ping rt rt' same)
        (λ connected s s' same'.
          follow-IsAlike _ (storing Pool.count_by_state s) (storing Pool.count_by_state s')
            (storing-IsAlike Pool.count_by_state s s' same')
            (λ counts t t' (d, c, h). (refl, d, c, ap (update _) h)))

  -- The same runtime reached by a result that is undisturbed, and the finish after it.
  finish-IsAlike :
      (rt : Runtime) (x : Settled Failure (Unit {0}) × Runtime)
      → IsUndisturbed rt x
      → IsAlike (after (λ _. finish setup env) x.0 x.1) (finish setup env rt)
  finish-IsAlike rt (resolved u, s) (r, d, c, h) = finish-Alike s rt (d, c, h)
  finish-IsAlike rt (rejected e, s) (r, d, c, h) = cc

IsAlike-join :
    (x y z : Settled Failure (Unit {0}) × Runtime) → IsAlike x z → IsAlike y z → IsAlike x y
IsAlike-join x y z (r, d, c, h) (r', d', c', h') = (r ∙ sym r', d ∙ sym d', c ∙ sym c', h ∙ sym h')

reported-IsAlike :
    (f : Failure → HealthState → HealthState) (x y : Settled Failure (Unit {0}) × Runtime)
    → IsAlike x y
    → IsAlike (handle (λ e. report (f e)) x.0 x.1) (handle (λ e. report (f e)) y.0 y.1)
reported-IsAlike f (resolved u, s) (resolved v, t) h = h
reported-IsAlike f (resolved u, s) (rejected e, t) h = cc
reported-IsAlike f (rejected e, s) (resolved u, t) h = cc
reported-IsAlike f (rejected e, s) (rejected e', t) (r, d, c, h) = (refl, d, c, cc)

module _ (setup : Setup) (env : Environment) (other : Node) where
  abbrev elsewhere : Environment
  elsewhere = record env { node = other }

  rest-IsAlike :
      (rt : Runtime)
      → IsAlike
          ((enforce setup env >> finish setup env) rt)
          ((enforce setup elsewhere >> finish setup elsewhere) rt)
  rest-IsAlike rt =
      IsAlike-join ((enforce setup env >> finish setup env) rt)
        ((enforce setup elsewhere >> finish setup elsewhere) rt) (finish setup env rt)
        (finish-IsAlike setup env rt (enforce setup env rt)
          (sweep-IsUndisturbed setup env rt.challenger rt))
        (finish-IsAlike setup elsewhere rt (enforce setup elsewhere rt)
          (sweep-IsUndisturbed setup elsewhere rt.challenger rt))

  queue-IsAlike :
      (rt : Runtime)
      → IsAlike
          ((take_queued setup env >> (enforce setup env >> finish setup env)) rt)
          ((take_queued setup elsewhere >> (enforce setup elsewhere >> finish setup elsewhere)) rt)
  unfolding take_queued
  queue-IsAlike rt =
      after-IsAlike (λ _. enforce setup env >> finish setup env)
        (λ _. enforce setup elsewhere >> finish setup elsewhere) (take_queued setup env rt).0
        (take_queued setup env rt).1 (λ a. rest-IsAlike)

  tick_at-IsAlike :
      (height : ℕ) (rt : Runtime)
      → IsAlike (tick_at setup env height rt) (tick_at setup elsewhere height rt)
  tick_at-IsAlike height rt =
      after-IsAlike (from_head setup env height) (from_head setup elsewhere height)
        (as_thrown env.block_number) rt
        (λ source_head rt'.
          let scanned = watching (scan env.source setup.watch height) rt' in
          after-IsAlike (λ _. after_scan setup env height source_head)
            (λ _. after_scan setup elsewhere height source_head) scanned.0 scanned.1
            (λ n rt''.
              let asked = storing (Pool.get_cursor setup.watch.chain_key) rt'' in
              after-IsAlike _ _ asked.0 asked.1 (λ cursor s.
                let patch = chain_report setup env height source_head cursor in
                queue-IsAlike (report (update_chain setup.watch.chain_key patch) s).1)))

  on_attested-IsAlike :
      (attested : Attested) (rt : Runtime) (exists : Bool)
      → IsAlike
          (on_attested setup env (record attested { exists = exists }) rt)
          (on_attested setup elsewhere (record attested { exists = exists }) rt)
  on_attested-IsAlike attested rt true = tick_at-IsAlike attested.height rt
  on_attested-IsAlike attested rt false = (refl, refl, refl, refl)

  -- A round of the loop comes to the same store, the same calls of the pipeline and the same health
  -- report, and returns alike, whatever the node of the challenger answers or throws in its sweep.
  pub run_tick-IsAlike :
      (rt : Runtime) → IsAlike (run_tick setup env rt) (run_tick setup elsewhere rt)
  unfolding run_tick tick
  run_tick-IsAlike rt =
      reported-IsAlike
        (λ e. update (record no_change { status = some degraded; last_error = some (message e) }))
        (tick setup env rt) (tick setup elsewhere rt)
        (after-IsAlike (on_attested setup env) (on_attested setup elsewhere)
          (as_thrown (latest_attested_height env.attestation)) rt
          (λ attested rt'. on_attested-IsAlike attested rt' attested.exists))
