-- ===== src/Worker/Submit.antt =====
-- The pre-flight check and the submission (worker/src/precheck.ts, worker/src/submit.ts).
use clearbook.Prelude.{
  ℕ, Bool, true, false, not, Option, none, some, [], ◌++◌, ◌==◌, if◌then◌else◌, exists,
}
use clearbook.Text.{Text, codes, text_eq}
use clearbook.Async.{Exec, pure, throw, catch, read, ◌>>=◌, ◌>>◌}
use clearbook.Worker.{
  ProofBundle, Failure, thrown, message, VaultReceipt, Services, Worker, call, ask_index,
  verify_single, ask_fact_id, ask_exists, submit_transfer_fact, wait_receipt, count, measure,
}

pub record PrecheckResult : Type 0 where
  pub ok : Bool
  pub reason : Option Text

pub record SubmitResult : Type 0 where
  pub fact_id : Text
  pub cc_tx_hash : Text
  pub gas_used : ℕ
  pub already_existed : Bool

module _ (services : Services) where
  abbrev pub refused_precheck : Text → Exec Failure Worker PrecheckResult
  refused_precheck reason = do
    count (codes "facts_precheck_failed_total") []
    pure (record { ok = false; reason = some reason })

  -- `Prechecker.verify`: a false verdict and an error both mean "do not submit".
  unfoldable pub precheck : ProofBundle → Exec Failure Worker PrecheckResult
  precheck bundle =
      catch
        (do
          ok ← call (verify_single bundle) (λ h. services.verdict h bundle)
          if not ok
              then refused_precheck (codes "precompile verify() returned false")
              else pure (record { ok = true; reason = none }))
        (λ e. refused_precheck (message e))

  unfoldable pub calculate_tx_index : ProofBundle → Exec Failure Worker ℕ
  calculate_tx_index bundle = call (ask_index bundle) (λ h. services.index h bundle)

  unfoldable pub compute_fact_id : ProofBundle → ℕ → ℕ → Exec Failure Worker Text
  compute_fact_id bundle tx_index log_index =
      call (ask_fact_id bundle tx_index log_index)
        (λ h. services.fact_id h bundle tx_index log_index)

  abbrev pub is_stored_event : Option Text → Bool
  is_stored_event none = false
  is_stored_event (some name) = text_eq name (codes "TransferFactStored")

  -- The receipt of the submission.
  abbrev pub on_receipt : Text → Text → Option VaultReceipt → Exec Failure Worker SubmitResult
  on_receipt fact_id hash none = throw (thrown (codes "no receipt for " ++ hash))
  on_receipt fact_id hash (some receipt) =
      if not (receipt.status == 1)
      then throw (thrown (codes "submission reverted: " ++ hash))
      else (do
        count (codes "facts_submitted_total") []
        latency ← read (λ w. services.elapsed w.calls)
        measure (codes "submit_latency_ms") latency
        pure (record {
          fact_id = fact_id;
          cc_tx_hash = hash;
          gas_used = receipt.gas_used;
          already_existed = not (exists is_stored_event receipt.log_names);
        }))

  unfoldable pub submit : ProofBundle → ℕ → ℕ → Exec Failure Worker SubmitResult
  unfolding compute_fact_id
  submit bundle tx_index log_index = do
    fact_id ← compute_fact_id bundle tx_index log_index
    known ← call (ask_exists fact_id) (λ h. services.known h fact_id)
    if known
        then pure (record {
          fact_id = fact_id;
          cc_tx_hash = codes "";
          gas_used = 0;
          already_existed = true;
        })
        else (do
          hash ←
              call (submit_transfer_fact bundle log_index)
                (λ h. services.submission h bundle log_index)
          receipt ← call (wait_receipt hash) (λ h. services.receipt h hash)
          on_receipt fact_id hash receipt)
