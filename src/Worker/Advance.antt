-- ===== src/Worker/Advance.antt =====
-- `advance` of worker/src/main.ts: one fact from DISCOVERED to CONFIRMED, or to a side exit.
pub mod Keeps
pub mod Finishes
pub mod Progress
pub mod Ends
use clearbook.Prelude.{ℕ, Bool, true, false, not, Option, none, some, List, [], ◌∷◌, if◌then◌else◌}
use clearbook.Text.{Text, codes}
use clearbook.Async.{Settled, resolved, rejected, Exec, pure, catch, ◌>>=◌, ◌>>◌}
use clearbook.Db.{
  FactRow, waiting_attestation, proved, precheck_failed, submitted, confirmed, discovered, failed,
  no_patch,
}
use clearbook.Db.Pool
use clearbook.Worker.{
  Failure, proof_error, thrown, message, ProofBundle, Services, Worker, store, count,
}
use clearbook.Worker.Prove.{retriable_class, class_name, wait_until_attested, get_proof}
use clearbook.Worker.Submit.{
  PrecheckResult, SubmitResult, precheck, calculate_tx_index, compute_fact_id, submit,
}

-- `!(e instanceof ProofError) || e.retriable`
abbrev pub is_retriable : Failure → Bool
is_retriable (proof_error c m) = retriable_class c
is_retriable (thrown m) = true

abbrev pub failure_class : Failure → Text
failure_class (proof_error c m) = class_name c
failure_class (thrown m) = codes "UNKNOWN"

module _ (services : Services) (row : FactRow) where
  -- Step 5.
  abbrev pub submit_fact : ProofBundle → ℕ → Exec Failure Worker (Unit {0})
  submit_fact bundle tx_index = do
    fact_id ← compute_fact_id services bundle tx_index row.log_index
    store (Pool.set_state row.id submitted (record no_patch { fact_id = some fact_id }))
    result ← submit services bundle tx_index row.log_index
    store (
        Pool.set_state row.id confirmed
          (record no_patch { fact_id = some result.fact_id; cc_tx_hash = some result.cc_tx_hash }))

  -- Steps 4 and 5: nothing is submitted unless the check passes.
  abbrev pub after_check : ProofBundle → ℕ → PrecheckResult → Exec Failure Worker (Unit {0})
  after_check bundle tx_index pre =
      if not pre.ok
      then store
          (Pool.set_state row.id precheck_failed (record no_patch { last_error = pre.reason }))
      else submit_fact bundle tx_index

  abbrev pub steps : Exec Failure Worker (Unit {0})
  steps = do
    store (Pool.set_state row.id waiting_attestation no_patch)
    waited ← wait_until_attested services row.block_height
    bundle ← get_proof services row.tx_hash none
    tx_index ← calculate_tx_index services bundle
    store (Pool.set_state row.id proved (record no_patch { tx_index = some tx_index }))
    pre ← precheck services bundle
    after_check bundle tx_index pre

  -- The catch block: retriable failures stay in the queue, permanent ones are parked.
  abbrev pub park : Failure → Exec Failure Worker (Unit {0})
  park e = do
    store (Pool.record_attempt row.id (message e))
    count (codes "errors_total") ((codes "class", failure_class e) ∷ [])
    if is_retriable e
        then store
            (Pool.set_state row.id discovered (record no_patch { last_error = some (message e) }))
        else store
            (Pool.set_state row.id failed (record no_patch { last_error = some (message e) }))

  unfoldable pub advance : Exec Failure Worker (Unit {0})
  advance = catch steps park
