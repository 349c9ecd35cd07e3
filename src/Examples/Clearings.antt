-- ===== src/Examples/Clearings.antt =====
-- The clearance of a transaction with one transfer among its two logs, which a loan has consumed.
use clearbook.Prelude.{
  ℕ, ◌≡◌, refl, true, false, ◌==◌, if◌then◌else◌, some, [], ◌∷◌, ◌++◌, All, get_elem?,
}
use clearbook.Text.{Text, codes}
use clearbook.Async.{resolved}
use clearbook.Clearance.Legs.{Log, TransferLeg, erc20_transfer_topic, transfer_legs, fact_id_of}
use clearbook.Clearance.Legs.Positions.{ComesFrom, Stands, leg, transfer_legs-positions}
use clearbook.Text.Parts.{trim}
use clearbook.Clearance.Check.{Services, ClearanceResult, check_clearance}
use clearbook.Clearance.Check.Verdicts.{IsJustified}
use clearbook.Clearance.Check.Answer.{check_clearance-IsJustified}
use clearbook.Clearance.Check.Bundles.{view, sending, check_clearance-any_bundle}
use clearbook.Clearance.Check.{Bundle}
use clearbook.Clearance.Check.Returns.{Answering, check_clearance-Returns}
use clearbook.Examples.{address, fact}

abbrev approval : Log
approval = record { address = address b'a'; topics = fact b'1' ∷ []; bytes = codes "0x" }

abbrev transfer : Log
transfer = record {
  address = address b'a';
  topics = erc20_transfer_topic ∷ fact b'c' ∷ fact b'b' ∷ [];
  bytes = fact b'1';
}

abbrev identity_of : ℕ → ℕ → ℕ → ℕ → Text
identity_of key height index log_index = if log_index == 1 then codes "0xf1" else codes "0xf0"

abbrev services : Services
services = record {
  receipt_of = λ hash. resolved (record {
    succeeded = true;
    block_number = 101;
    transaction_index = 3;
    logs = approval ∷ transfer ∷ [];
  });
  supported_chains = resolved (record { key = 1; id = 11155111 } ∷ []);
  bounds_of = λ key height.
      resolved (record { parent_height = 100; child_height = 110; is_attested = true });
  proof_of = λ key hash. resolved (record {
    chain_key = 1;
    header_number = 101;
    tx_index = 3;
    tx_hash = hash;
    tx_bytes = codes "0x";
    merkle_root = codes "0x";
    siblings = [];
    lower_endpoint_digest = codes "0x";
    roots = [];
    cached = false;
  });
  verify_bundle = λ bundle. resolved true;
  vault_exists = λ id. resolved true;
  fact_consumed_by = λ id. resolved 9;
  fact_identity = identity_of;
  deployed = true;
}

abbrev input : Text
input = codes " " ++ fact b'7'

call_answers : Answering services 11155111
call_answers = (
  (record { key = 1; id = 11155111 } ∷ [], record { key = 1; id = 11155111 }, refl, refl),
  (λ key height. (_, refl)),
  (λ bundle. (_, refl)),
  (λ id. (_, refl)),
  (λ id. (_, refl)),
)

answered : (r : ClearanceResult) × ((check_clearance services 11155111 input []).0 ≡ resolved r)
answered = check_clearance-Returns services 11155111 call_answers input []

check_clearance-Returns_example :
    (r : ClearanceResult) × ((check_clearance services 11155111 input []).0 ≡ resolved r)
check_clearance-Returns_example = check_clearance-Returns services 11155111 call_answers input []

check_clearance-IsJustified_example : IsJustified services (trim input) answered.0
check_clearance-IsJustified_example =
    check_clearance-IsJustified services 11155111 input [] answered.0 answered.1

transfer_legs-positions_example :
    All
      (λ l.
        ComesFrom identity_of 1 101 3 0 (approval ∷ transfer ∷ []) l
        × (l.fact_id ≡ fact_id_of identity_of 1 101 3 l.log_index))
      (transfer_legs identity_of 1 101 3 (approval ∷ transfer ∷ []))
    × ((i : ℕ) (log : Log) (l : TransferLeg)
        → get_elem? (approval ∷ transfer ∷ []) i ≡ some log
        → leg identity_of 1 101 3 i log ≡ some l
        → Stands identity_of 1 101 3
            (transfer_legs identity_of 1 101 3 (approval ∷ transfer ∷ []))
            l)
transfer_legs-positions_example =
    transfer_legs-positions identity_of 1 101 3 (approval ∷ transfer ∷ [])

abbrev bundle_at : ℕ → Bundle
bundle_at height = record {
  chain_key = 1;
  header_number = height;
  tx_index = 3;
  tx_hash = codes "0x";
  tx_bytes = codes "0x";
  merkle_root = codes "0x";
  siblings = [];
  lower_endpoint_digest = codes "0x";
  roots = [];
  cached = false;
}

-- The located transaction is in block 101; the other bundle is about block 55.
check_clearance-any_bundle_example :
    view
      (check_clearance
        (sending services 11155111 (bundle_at 101) (bundle_at 55) (bundle_at 101))
        11155111
        input
        []).0
    ≡ view
        (check_clearance
          (sending services 11155111 (bundle_at 101) (bundle_at 55) (bundle_at 55))
          11155111
          input
          []).0
check_clearance-any_bundle_example =
    check_clearance-any_bundle services 11155111 (bundle_at 101) (bundle_at 55) refl input []
