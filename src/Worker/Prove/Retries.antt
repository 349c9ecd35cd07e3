-- ===== src/Worker/Prove/Retries.antt =====
-- How often the proof builder is asked, and when it is not asked again.
use clearbook.Prelude.{
  ℕ, zero, suc, ◌+◌, ◌≤◌, ◌≡◌, ◌≢◌, refl, Option, none, some, or_else, ◌∷◌, arith, length,
  Bool-cases, inl, inr,
}
use clearbook.Text.{Text}
use clearbook.Async.{Settled, resolved, rejected, Exec, after}
use clearbook.Worker.{
  ProofBundle, not_found, Failure, BuilderReply, Services, Worker, as_thrown, ask_proof,
}
use clearbook.Worker.Prove.{
  retriable_class, bundle_of, failure_of, last_error_of, on_reply, proof_attempts, get_proof,
}

module _ (services : Services) where
  -- The state that the next round starts from, unless there is none.
  reply-calls :
      (reply : BuilderReply) (o : Option ProofBundle) (again : Exec Failure Worker ProofBundle)
      (left : ℕ) (w : Worker)
      → ((v : Worker) → length (again v).1.calls ≤ length v.calls + left)
      → length (on_reply services reply o again w).1.calls ≤ length w.calls + left
  reply-calls reply (some b) again left w k = omega arith
  reply-calls reply none again left w k =
      elim (Bool-cases (retriable_class (failure_of services reply))) [
        | inl more ↦ rw more (k _)
        | inr never ↦ rw never (omega arith)
      ]

  asked-calls :
      (r : Settled Text BuilderReply) (again : BuilderReply → Exec Failure Worker ProofBundle)
      (left : ℕ) (w : Worker)
      → ((reply : BuilderReply) (v : Worker)
          → length (again reply v).1.calls ≤ length v.calls + left)
      → length
          (after
            (λ reply. on_reply services reply (bundle_of services reply) (again reply))
            (as_thrown r)
            w).1.calls
        ≤ length w.calls + left
  asked-calls (rejected e) again left w k = omega arith
  asked-calls (resolved reply) again left w k =
      reply-calls reply (bundle_of services reply) (again reply) left w (k reply)

  attempts-calls :
      (tx_hash : Text) (left : ℕ) (last_error : Option Failure) (w : Worker)
      → length (proof_attempts services tx_hash left last_error w).1.calls ≤ length w.calls + left
  unfolding proof_attempts
  attempts-calls tx_hash zero last_error w = omega arith
  attempts-calls tx_hash (suc left) last_error w =
      let asked : Worker = record w { calls = ask_proof tx_hash ∷ w.calls } in
      omega (
        arith,
        asked-calls (services.proof w.calls tx_hash)
            (λ reply. proof_attempts services tx_hash left (some (last_error_of services reply)))
            left asked
            (λ reply v. attempts-calls tx_hash left (some (last_error_of services reply)) v),
      )

  not_found-once :
      (tx_hash : Text) (w : Worker) (left : ℕ) (reply : BuilderReply)
      → 0 ≢ left
      → services.proof w.calls tx_hash ≡ resolved reply
      → bundle_of services reply ≡ none
      → failure_of services reply ≡ not_found
      → ((proof_attempts services tx_hash left none w).0 ≡ rejected (last_error_of services reply))
        × ((proof_attempts services tx_hash left none w).1.calls ≡ ask_proof tx_hash ∷ w.calls)
  unfolding proof_attempts retriable_class
  not_found-once tx_hash w zero reply n e b f = absurd (n refl)
  not_found-once tx_hash w (suc left) reply n e b f = rw (e, b, f) (refl, refl)

  -- Whatever the builder replies, `getProof` asks it at most `maxAttempts` times, five by default; and
  -- when its first reply brings no bundle and says that the transaction is not found, `getProof` throws
  -- this failure after one call.
  pub get_proof-calls :
      (tx_hash : Text) (max_attempts : Option ℕ) (w : Worker)
      → (length (get_proof services tx_hash max_attempts w).1.calls
          ≤ length w.calls + or_else max_attempts 5)
        × ((reply : BuilderReply)
            → 0 ≢ or_else max_attempts 5
            → services.proof w.calls tx_hash ≡ resolved reply
            → bundle_of services reply ≡ none
            → failure_of services reply ≡ not_found
            → ((get_proof services tx_hash max_attempts w).0
                ≡ rejected (last_error_of services reply))
              × ((get_proof services tx_hash max_attempts w).1.calls ≡ ask_proof tx_hash ∷ w.calls))
  unfolding get_proof
  get_proof-calls tx_hash max_attempts w = (
    attempts-calls tx_hash (or_else max_attempts 5) none w,
    not_found-once tx_hash w (or_else max_attempts 5),
  )
