-- ===== src/Worker/Prove.antt =====
-- Proof acquisition (worker/src/prove.ts).
pub mod Retries
use clearbook.Prelude.{
  ℕ, zero, suc, Bool, true, false, not, ◌||◌, Option, none, some, or_else, [], ◌∷◌, ◌++◌,
  if◌then◌else◌,
}
use clearbook.Text.{Text, codes, to_lower_case, includes}
use clearbook.Text.Decimal.{decimal}
use clearbook.Async.{Exec, pure, throw, catch, read, ◌>>=◌, ◌>>◌}
use clearbook.Worker.{
  ProofBundle, ProofFailureClass, not_attested, not_found, service_error, Failure, proof_error,
  message, BuilderReply, Services, Worker, call, wait_height, ask_proof, count, measure,
}

-- `failureClass !== 'NOT_FOUND'`
unfoldable pub retriable_class : ProofFailureClass → Bool
retriable_class not_attested = true
retriable_class not_found = false
retriable_class service_error = true

unfoldable pub classify : Text → ProofFailureClass
unfolding includes
classify error =
    let e = to_lower_case error in
    if includes e (codes "not attested")
      || includes e (codes "attestation")
      || includes e (codes "not yet")
    then not_attested
    else if includes e (codes "404") || includes e (codes "not found")
    then not_found
    else service_error

abbrev pub class_name : ProofFailureClass → Text
class_name not_attested = codes "NOT_ATTESTED"
class_name not_found = codes "NOT_FOUND"
class_name service_error = codes "SERVICE_ERROR"

module _ (services : Services) where
  -- `waitUntilAttested`: whatever the builder throws becomes a NOT_ATTESTED error.
  unfoldable pub wait_until_attested : ℕ → Exec Failure Worker ℕ
  wait_until_attested height = do
    catch (call (wait_height height) (λ h. services.attested h height)) (λ e. throw (
        proof_error not_attested
          (codes "timed out waiting for height " ++ (decimal height ++ (codes ": " ++ message e)))))
    waited ← read (λ w. services.elapsed w.calls)
    measure (codes "attestation_wait_ms") waited
    pure waited

  -- A reply that brings a bundle: `res.success && res.data`.
  abbrev pub bundle_of : BuilderReply → Option ProofBundle
  bundle_of reply = if reply.success then reply.bundle else none

  abbrev pub failure_of : BuilderReply → ProofFailureClass
  failure_of reply = classify (or_else reply.error (codes "unknown"))

  abbrev pub last_error_of : BuilderReply → Failure
  last_error_of reply =
      proof_error (failure_of reply) (or_else reply.error (codes "unknown proof failure"))

  -- What follows a reply; `again` is the next round of the loop.
  abbrev pub on_reply :
      BuilderReply
      → Option ProofBundle
      → Exec Failure Worker ProofBundle
      → Exec Failure Worker ProofBundle
  on_reply reply (some bundle) again = do
    latency ← read (λ w. services.elapsed w.calls)
    measure (codes "proof_latency_ms") latency
    count (codes "proofs_fetched_total") []
    pure bundle
  on_reply reply none again = do
    count (codes "errors_total") ((codes "class", class_name (failure_of reply)) ∷ [])
    if not (retriable_class (failure_of reply)) then throw (last_error_of reply) else again

  -- The loop with the attempts left. The waits between two attempts change nothing.
  unfoldable pub proof_attempts : Text → ℕ → Option Failure → Exec Failure Worker ProofBundle
  proof_attempts tx_hash zero last_error =
      throw (or_else last_error (proof_error service_error (codes "proof acquisition failed")))
  proof_attempts tx_hash (suc left) last_error = do
    reply ← call (ask_proof tx_hash) (λ h. services.proof h tx_hash)
    on_reply reply (bundle_of reply) (proof_attempts tx_hash left (some (last_error_of reply)))

  -- `opts.maxAttempts ?? 5`
  unfoldable pub get_proof : Text → Option ℕ → Exec Failure Worker ProofBundle
  unfolding proof_attempts
  get_proof tx_hash max_attempts = proof_attempts tx_hash (or_else max_attempts 5) none
