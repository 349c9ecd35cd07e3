-- ===== src/Worker/Advance/Keeps.antt =====
-- What every step of `advance` keeps: a property of the database that a query and the statements of
-- `setState` and `recordAttempt` on the row keep.
use clearbook.Prelude.{ℕ, zero, suc, Option, none, some, List}
use clearbook.Text.{Text}
use clearbook.Async.{Settled, Exec, throw, read}
use clearbook.Async.Preserves.{Preserves, Preserves-bind, Preserves-catch, preserves_rules}
use clearbook.Db.{FactState, FactRow, Db, Patch, set_state, record_attempt}
use clearbook.Db.Pool
use clearbook.Db.Queries.{query-kept}
use clearbook.Worker
use clearbook.Worker.{
  Call, Calls, Failure, message, ProofBundle, BuilderReply, VaultReceipt, Services, Worker, store,
  count, measure, ask_proof,
}
use clearbook.Worker.Prove.{
  wait_until_attested, on_reply, proof_attempts, get_proof, last_error_of, bundle_of,
}
use clearbook.Worker.Submit.{
  PrecheckResult, precheck, calculate_tx_index, compute_fact_id, submit, on_receipt,
}
use clearbook.Worker.Advance.{submit_fact, after_check, steps, park, advance}

pub record Keeps (id : ℕ) (P : Db → Type 0) : Type 0 where
  pub ask : (db : Db) → P db → P (Pool.asked_once db)
  pub set : (state : FactState) (patch : Patch) (db : Db) → P db → P (set_state id state patch db).1
  pub attempt : (error : Text) (db : Db) → P db → P (record_attempt id error db).1

-- The property, of the database of a worker.
unfoldable pub On : (Db → Type 0) → Worker → Type 0
On P w = P w.db

module _ (P : Db → Type 0) {A : Type 0} where
  On-call : (c : Call) (answer : Calls → Settled Text A) → Preserves (On P) (Worker.call c answer)
  unfolding On
  On-call c answer = record { kept = λ w h. h }

  On-read : (f : Worker → A) → Preserves (On P) (read {E = Failure} f)
  On-read f = record { kept = λ w h. h }

  On-throw : (e : Failure) → Preserves (On P) (throw {E = Failure} {S = Worker} {A = A} e)
  On-throw e = record { kept = λ w h. h }

module _ (P : Db → Type 0) where
  pub On-count : (name : Text) (labels : List (Text × Text)) → Preserves (On P) (count name labels)
  unfolding On
  On-count name labels = record { kept = λ w h. h }

  On-measure : (name : Text) (value : ℕ) → Preserves (On P) (measure name value)
  unfolding On
  On-measure name value = record { kept = λ w h. h }

  pub On-set_state :
      (id : ℕ) (state : FactState) (patch : Patch)
      → Keeps id P
      → Preserves (On P) (store (Pool.set_state id state patch))
  unfolding On
  On-set_state id state patch k = record {
    kept = λ w h.
        let h' = k.ask w.db h in
        query-kept (set_state id state patch) P w.db h' (k.set state patch _ h');
  }

  pub On-record_attempt :
      (id : ℕ) (error : Text) → Keeps id P → Preserves (On P) (store (Pool.record_attempt id error))
  unfolding On
  On-record_attempt id error k = record {
    kept = λ w h.
        let h' = k.ask w.db h in
        query-kept (record_attempt id error) P w.db h' (k.attempt error _ h');
  }

ruleset on_rules = (
  preserves_rules, On-call, On-read, On-throw, On-count, On-measure, On-set_state,
  On-record_attempt,
)

module _ (P : Db → Type 0) (services : Services) where
  pub On-wait : (height : ℕ) → Preserves (On P) (wait_until_attested services height)
  unfolding wait_until_attested
  On-wait height = search on_rules

  On-on_reply :
      (reply : BuilderReply) (o : Option ProofBundle) (again : Exec Failure Worker ProofBundle)
      → Preserves (On P) again
      → Preserves (On P) (on_reply services reply o again)
  On-on_reply reply (some b) again p = search on_rules
  On-on_reply reply none again p = search on_rules

  On-attempts :
      (tx_hash : Text) (left : ℕ) (last_error : Option Failure)
      → Preserves (On P) (proof_attempts services tx_hash left last_error)
  unfolding proof_attempts
  On-attempts tx_hash zero last_error = On-throw P _
  On-attempts tx_hash (suc left) last_error =
      Preserves-bind _ _ (On-call P (ask_proof tx_hash) (λ h. services.proof h tx_hash)) (λ reply.
        On-on_reply reply (bundle_of services reply) _
          (On-attempts tx_hash left (some (last_error_of services reply))))

  pub On-get_proof :
      (tx_hash : Text) (n : Option ℕ) → Preserves (On P) (get_proof services tx_hash n)
  unfolding get_proof
  On-get_proof tx_hash n = On-attempts tx_hash _ _

  pub On-precheck : (b : ProofBundle) → Preserves (On P) (precheck services b)
  unfolding precheck
  On-precheck b = search on_rules

  pub On-index : (b : ProofBundle) → Preserves (On P) (calculate_tx_index services b)
  unfolding calculate_tx_index
  On-index b = search on_rules

  pub On-fact_id : (b : ProofBundle) (i l : ℕ) → Preserves (On P) (compute_fact_id services b i l)
  unfolding compute_fact_id
  On-fact_id b i l = search on_rules

  On-on_receipt :
      (f hash : Text) (r : Option VaultReceipt) → Preserves (On P) (on_receipt services f hash r)
  On-on_receipt f hash none = search on_rules
  On-on_receipt f hash (some r) = search on_rules

  pub On-submit : (b : ProofBundle) (i l : ℕ) → Preserves (On P) (submit services b i l)
  unfolding submit
  On-submit b i l = search (on_rules, On-on_receipt) depth 9

ruleset step_rules = (on_rules, On-wait, On-get_proof, On-precheck, On-index, On-fact_id, On-submit)

module _ (P : Db → Type 0) (services : Services) (fact : FactRow) (k : Keeps fact.id P) where
  On-submit_fact : (b : ProofBundle) (i : ℕ) → Preserves (On P) (submit_fact services fact b i)
  On-submit_fact b i = search step_rules depth 9

  On-after_check :
      (b : ProofBundle) (i : ℕ) (pre : PrecheckResult)
      → Preserves (On P) (after_check services fact b i pre)
  On-after_check b i pre = search (step_rules, On-submit_fact)

  pub On-steps : Preserves (On P) (steps services fact)
  On-steps = search (step_rules, On-after_check) depth 16

  pub On-park : (e : Failure) → Preserves (On P) (park services fact e)
  On-park e = search step_rules depth 9

  -- Whatever happens in `advance`, the property is kept.
  pub On-advance : Preserves (On P) (advance services fact)
  unfolding advance
  On-advance = Preserves-catch (steps services fact) (park services fact) On-steps On-park
