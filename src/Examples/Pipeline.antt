-- ===== src/Examples/Pipeline.antt =====
-- A fact that goes through the pipeline, and one whose proof the builder does not find.
use clearbook.Prelude.{ℕ, ◌≡◌, ◌≢◌, ◌≤◌, length, refl, true, false, none, some, [], ◌∷◌}
use clearbook.Text.{codes, includes, starts_with, to_lower_case, lower_unit}
use clearbook.Async.{resolved, rejected}
use clearbook.Worker.{Services, Worker, ProofBundle, BuilderReply, ask_proof, not_found}
use clearbook.Db.Queries.{IsUp}
use clearbook.Worker.Prove.{
  get_proof, proof_attempts, retriable_class, classify, bundle_of, failure_of, last_error_of,
}
use clearbook.Worker.Prove.Retries.{get_proof-calls}
use clearbook.Worker.Advance.{advance}
use clearbook.Worker.Advance.Ends.{Stored, Parked, advance-Parked}
use clearbook.Examples.Tables.{table, flying_row, table-IsConsistent}

abbrev bundle : ProofBundle
bundle = record {
  chain_key = 1;
  header_number = 101;
  tx_index = 3;
  tx_hash = codes "0x02";
  tx_bytes = codes "0x";
  merkle_root = codes "0x";
  siblings = [];
  lower_endpoint_digest = codes "0x";
  roots = [];
  cached = false;
}

abbrev pub services : Services
services = record {
  attested = λ h height. resolved tt;
  proof = λ h hash. resolved (record { success = true; bundle = some bundle; error = none });
  index = λ h b. resolved 3;
  verdict = λ h b. resolved true;
  fact_id = λ h b i l. resolved (codes "0xf2");
  known = λ h id. resolved false;
  submission = λ h b l. resolved (codes "0xc2");
  receipt = λ h hash. resolved (
      some
        (record { status = 1; gas_used = 9; log_names = some (codes "TransferFactStored") ∷ [] }));
  elapsed = λ h. 5;
}

abbrev worker : Worker
worker = record { db = table; metrics = record { counters = []; samples = [] }; calls = [] }

advance-Parked_example :
    Stored 2 (advance services flying_row worker).1
    × ((advance services flying_row worker).0 ≡ resolved tt
        → Parked 2 (advance services flying_row worker).1)
    × (IsUp worker.db → (advance services flying_row worker).0 ≡ resolved tt)
advance-Parked_example =
    advance-Parked services flying_row worker (flying_row, refl, table-IsConsistent)

-- A builder that does not find the transaction.
abbrev lost : BuilderReply
lost = record { success = false; bundle = none; error = some (codes "404") }

abbrev losing : Services
losing = record services { proof = λ h hash. resolved lost }

get_proof-calls_example :
    (length (get_proof losing (codes "0x02") none worker).1.calls ≤ 5)
    × ((reply : BuilderReply)
        → ◌≢◌ {A = ℕ} 0 5
        → losing.proof [] (codes "0x02") ≡ resolved reply
        → bundle_of losing reply ≡ none
        → failure_of losing reply ≡ not_found
        → ((get_proof losing (codes "0x02") none worker).0 ≡ rejected (last_error_of losing reply))
          × ((get_proof losing (codes "0x02") none worker).1.calls ≡ ask_proof (codes "0x02") ∷ []))
get_proof-calls_example = get_proof-calls losing (codes "0x02") none worker

-- It is asked once.
asked_once : (get_proof losing (codes "0x02") none worker).1.calls ≡ ask_proof (codes "0x02") ∷ []
unfolding get_proof proof_attempts retriable_class classify includes starts_with to_lower_case
    lower_unit
asked_once = refl
