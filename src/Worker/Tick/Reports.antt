-- ===== src/Worker/Tick/Reports.antt =====
-- What the health endpoint says after a round.
use mathlib.Core.Path.{subst}
use clearbook.Prelude.{ℕ, ◌≡◌, refl, sym, ap, ◌∙◌, true, false, Option, none, some, if◌then◌else◌}
use clearbook.Text.{codes, text_eq}
use clearbook.Async.{Settled, resolved, rejected, Exec, handle, after}
use clearbook.Async.Leads.{Leads, Leads-bind, Leads-then, Leads-modify}
use clearbook.Db.Pool
use clearbook.Watch.{scan}
use clearbook.Worker.{Failure, message, as_thrown}
use clearbook.Worker.Health.{
  HealthStatus, HealthState, ok, degraded, no_change, update, update_chain, Answer, reports,
  not_found, respond, is_ok,
}
use clearbook.Worker.Discover.{Attested, latest_attested_height}
use clearbook.Worker.Tick.{
  Runtime, Environment, Setup, answer, storing, watching, report, chain_report, take_queued,
  enforce, finish, tick_at, on_attested, tick, run_tick,
}
use clearbook.Worker.Tick.Rounds.{tick-at}

-- The status of the reply to a request.
abbrev pub code_of : Answer → Option ℕ
code_of (reports code state metrics) = some code
code_of not_found = none

-- The reply to GET /health.
abbrev pub served : Runtime → Option ℕ
served rt = code_of (respond (codes "/health") rt.worker.metrics rt.health)

served-is_ok :
    (rt : Runtime) (status : HealthStatus)
    → rt.health.status ≡ status
    → served rt ≡ some (if is_ok status then 200 else 503)
unfolding respond text_eq
served-is_ok rt status h = ap (λ s. some (if is_ok s then 200 else 503)) h

-- At any object.
Anything : {A : Type 0} (m : Exec Failure Runtime A) → Leads (λ _. Unit {0}) (λ _. Unit {0}) m
Anything m = record { lead = λ rt a h e. tt }

module _ (setup : Setup) (env : Environment) where
  IsWell : Runtime → Type 0
  IsWell rt = rt.health.status ≡ ok

  Leads-finish : Leads (λ _. Unit {0}) IsWell (finish setup env)
  unfolding IsWell update
  Leads-finish = Leads-bind (storing Pool.ping) _ (Anything _) (λ connected.
      Leads-bind (storing Pool.count_by_state) _ (Anything _)
        (λ counts. Leads-modify _ (λ rt h. refl)))

  Leads-tick_at : (height : ℕ) → Leads (λ _. Unit {0}) IsWell (tick_at setup env height)
  Leads-tick_at height = Leads-bind (answer env.block_number) _ (Anything _) (λ source_head.
      Leads-then (watching (scan env.source setup.watch height)) _ (Anything _) (
        Leads-bind (storing (Pool.get_cursor setup.watch.chain_key)) _ (Anything _) (λ cursor.
          Leads-then
            (report (
              update_chain setup.watch.chain_key
                (chain_report setup env height source_head cursor)))
            _ (Anything _)
            (Leads-then (take_queued setup env) _ (Anything _)
              (Leads-then (enforce setup env) _ (Anything _) Leads-finish)))))

  abbrev failing : Failure → HealthState → HealthState
  failing e = update (record no_change { status = some degraded; last_error = some (message e) })

  abbrev unattested : HealthState → HealthState
  unattested = update (record no_change {
    status = some degraded;
    last_error = some (codes "no attestations for chain");
  })

  -- The round is the tick where this returns, and its report where it throws.
  run_tick-tick :
      (rt : Runtime) (r : Settled Failure (Unit {0}))
      → (tick setup env rt).0 ≡ r
      → (run_tick setup env rt).1 ≡ (handle (λ e. report (failing e)) r (tick setup env rt).1).1
  unfolding run_tick
  run_tick-tick rt r h = ap (λ x. (handle (λ e. report (failing e)) x (tick setup env rt).1).1) h

  tick-unattested :
      (h : Attested) (rt : Runtime)
      → env.attestation ≡ resolved h
      → h.exists ≡ false
      → tick setup env rt ≡ report unattested rt
  unfolding tick latest_attested_height
  tick-unattested h rt at missing =
      ap (λ r. after (on_attested setup env) (as_thrown (latest_attested_height r)) rt) at
      ∙ ap
          (λ b.
            on_attested setup env (record { height = if b then h.height else 0; exists = b }) rt)
          missing

  -- GET /health after a round: 200 if the tick went through on an attested chain, 503 with the reason if
  -- the chain has no attestation, and 503 with the message of what the tick threw.
  pub run_tick-served :
      (rt : Runtime)
      → ((h : Attested)
          → env.attestation ≡ resolved h
          → h.exists ≡ true
          → (tick setup env rt).0 ≡ resolved tt
          → served (run_tick setup env rt).1 ≡ some 200)
        × ((h : Attested)
            → env.attestation ≡ resolved h
            → h.exists ≡ false
            → (served (run_tick setup env rt).1 ≡ some 503)
              × ((run_tick setup env rt).1.health.last_error
                  ≡ some (codes "no attestations for chain")))
        × ((e : Failure)
            → (tick setup env rt).0 ≡ rejected e
            → (served (run_tick setup env rt).1 ≡ some 503)
              × ((run_tick setup env rt).1.health.last_error ≡ some (message e)))
  unfolding IsWell update
  run_tick-served rt = (
    λ h at exists returns.
        let well : (tick setup env rt).1.health.status ≡ ok =
          subst (λ x. x.1.health.status ≡ ok) (sym (tick-at setup env h rt at exists))
            ((Leads-tick_at h.height).lead rt tt tt
              (ap (λ x. x.0) (sym (tick-at setup env h rt at exists)) ∙ returns)) in
        subst (λ x. served x ≡ some 200) (sym (run_tick-tick rt (resolved tt) returns))
          (served-is_ok (tick setup env rt).1 ok well),
    λ h at missing.
        let e = tick-unattested h rt at missing in
        let same = run_tick-tick rt (resolved tt) (ap (λ x. x.0) e) ∙ ap (λ x. x.1) e in
        (
          subst (λ x. served x ≡ some 503) (sym same)
              (served-is_ok (record rt { health = unattested rt.health }) degraded refl),
          ap (λ x. x.health.last_error) same,
        ),
    λ e thrown.
        let same = run_tick-tick rt (rejected e) thrown in
        (
          subst (λ x. served x ≡ some 503) (sym same)
              (served-is_ok (report (failing e) (tick setup env rt).1).1 degraded refl),
          ap (λ x. x.health.last_error) same,
        ),
  )
