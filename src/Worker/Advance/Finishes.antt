-- ===== src/Worker/Advance/Finishes.antt =====
-- Where the `try` block of `advance` runs to its end, the last step has written a terminal state.
use clearbook.Prelude.{ℕ, ◌≡◌, refl, true, not, none}
use clearbook.Async.Ends.{Ends, Ends-bind, Ends-then, Ends-if}
use clearbook.Db.{
  FactState, FactRow, Db, Patch, no_patch, confirmed, precheck_failed, submitted, proved,
  waiting_attestation,
}
use clearbook.Db.Pool
use clearbook.Db.Queue.{is_terminal}
use clearbook.Worker.{ProofBundle, Services, Worker, store}
use clearbook.Worker.Submit.{PrecheckResult}
use clearbook.Worker.Advance.{submit_fact, after_check, steps}
use clearbook.Worker.Advance.Keeps.{
  Keeps, On, On-set_state, On-wait, On-get_proof, On-precheck, On-index, On-fact_id, On-submit,
}

module _ (P : Db → Type 0) (Q : Worker → Type 0) (services : Services) (fact : FactRow)
    (k : Keeps fact.id P)
    (final : (state : FactState) (patch : Patch)
      → is_terminal state ≡ true
      → Ends (On P) Q (store (Pool.set_state fact.id state patch))) where
  Ends-submit_fact : (b : ProofBundle) (i : ℕ) → Ends (On P) Q (submit_fact services fact b i)
  Ends-submit_fact b i = Ends-bind _ _ (On-fact_id P services b i fact.log_index) (λ f.
      Ends-then _ _ (On-set_state P fact.id submitted _ k) (
        Ends-bind _ _ (On-submit P services b i fact.log_index) (λ result. final confirmed _ refl)))

  Ends-after_check :
      (b : ProofBundle) (i : ℕ) (pre : PrecheckResult)
      → Ends (On P) Q (after_check services fact b i pre)
  Ends-after_check b i pre =
      Ends-if (not pre.ok) _ _ (λ _. final precheck_failed _ refl) (λ _. Ends-submit_fact b i)

  pub Ends-steps : Ends (On P) Q (steps services fact)
  Ends-steps = Ends-then _ _ (On-set_state P fact.id waiting_attestation no_patch k) (
      Ends-bind _ _ (On-wait P services fact.block_height) (λ waited.
        Ends-bind _ _ (On-get_proof P services fact.tx_hash none) (λ b.
          Ends-bind _ _ (On-index P services b) (λ i.
            Ends-then _ _ (On-set_state P fact.id proved _ k)
              (Ends-bind _ _ (On-precheck P services b) (λ pre. Ends-after_check b i pre))))))
