-- ===== src/Clearance/Check.antt =====
-- `checkClearance` of frontend/lib/clearance.ts with `resolveSourceChainKey` and `attestationBounds` of
-- frontend/lib/verifier.ts. The calls to the two chains and to the proof builder are the record
-- `Services`; the object passed along is the list of the steps reported, the latest first. The texts
-- of `detail` and of the step reports are for display and are left out.
pub mod Yields
pub mod Verdicts
pub mod Answer
pub mod Returns
pub mod Bundles
use clearbook.Prelude.{
  ℕ, zero, suc, ◌+◌, Bool, true, false, not, ◌&&◌, ◌||◌, Option, none, some, List, [], ◌∷◌, ◌==◌,
  if◌then◌else◌, length, every, exists, find, is_empty,
}
use clearbook.Text.{Text, codes, to_lower_case, includes}
use clearbook.Text.Hex.{is_hash}
use clearbook.Text.Parts.{trim}
use clearbook.Async.{Settled, resolved, rejected, Exec, pure, throw, ◌>>=◌}
use clearbook.Clearance.Legs.{Log, TransferLeg, transfer_legs}

pub data UnverifiableReason : Type 0 where
  malformed_hash : UnverifiableReason
  not_found : UnverifiableReason
  reverted : UnverifiableReason
  no_transfer_log : UnverifiableReason
  not_attested : UnverifiableReason
  proof_unavailable : UnverifiableReason
  proof_rejected : UnverifiableReason
  source_unreachable : UnverifiableReason

pub data ClearanceOutcome : Type 0 where
  clear : ClearanceOutcome
  encumbered : ClearanceOutcome
  unverifiable : ClearanceOutcome

pub data ClearanceStep : Type 0 where
  locate : ClearanceStep
  chainkey : ClearanceStep
  attest : ClearanceStep
  proof : ClearanceStep
  verify : ClearanceStep
  identity : ClearanceStep
  registry : ClearanceStep
  consumed : ClearanceStep

pub record LegStatus : Type 0 where
  pub leg : TransferLeg
  pub in_registry : Bool
  pub consumed_by : Option ℕ

pub record ChainReceipt : Type 0 where
  pub succeeded : Bool
  pub block_number : ℕ
  pub transaction_index : ℕ
  pub logs : List Log

pub record SupportedChain : Type 0 where
  pub key : ℕ
  pub id : ℕ

-- What `get_attestation_bounds` answers, as `attestationBounds` returns it.
pub record Bounds : Type 0 where
  pub parent_height : ℕ
  pub child_height : ℕ
  pub is_attested : Bool

pub record Bundle : Type 0 where
  pub chain_key : ℕ
  pub header_number : ℕ
  pub tx_index : ℕ
  pub tx_hash : Text
  pub tx_bytes : Text
  pub merkle_root : Text
  pub siblings : List (Text × Bool)
  pub lower_endpoint_digest : Text
  pub roots : List Text
  pub cached : Bool

pub record ClearanceResult : Type 0 where
  pub outcome : ClearanceOutcome
  pub tx_hash : Text
  pub chain_key : ℕ
  pub chain_id : ℕ
  pub block_height : ℕ
  pub tx_index : ℕ
  pub legs : List LegStatus
  pub bundle : Option Bundle
  pub reason : Option UnverifiableReason

-- Everything the check asks, each answered or thrown.
pub record Services : Type 0 where
  pub receipt_of : Text → Settled Text ChainReceipt
  pub supported_chains : Settled Text (List SupportedChain)
  pub bounds_of : ℕ → ℕ → Settled Text Bounds
  pub proof_of : ℕ → Text → Settled Text Bundle
  pub verify_bundle : Bundle → Settled Text Bool
  pub vault_exists : Text → Settled Text Bool
  pub fact_consumed_by : Text → Settled Text ℕ
  pub fact_identity : ℕ → ℕ → ℕ → ℕ → Text
  pub deployed : Bool

abbrev pub Check : Type 0 → Type 0
Check = Exec Text (List ClearanceStep)

-- await
abbrev pub ask : {A : Type 0} → Settled Text A → Check A
ask answer steps = (answer, steps)

-- What follows an `await`.
unfoldable pub await : {A B : Type 0} → Check A → (A → Check B) → Check B
await m f = m >>= f

-- report(step), and what follows it.
unfoldable pub reporting : {B : Type 0} → ClearanceStep → Check B → Check B
reporting step rest steps = rest (step ∷ steps)

-- /not be found|not found/i.test(message)
unfoldable pub is_missing : Text → Bool
unfolding includes to_lower_case
is_missing message =
    let lower = to_lower_case message in
    includes lower (codes "not be found") || includes lower (codes "not found")

unfoldable pub unverifiable_as : Text → ℕ → ℕ → UnverifiableReason → ClearanceResult
unverifiable_as hash key chain_id reason = record {
  outcome = unverifiable;
  tx_hash = hash;
  chain_key = key;
  chain_id = chain_id;
  block_height = 0;
  tx_index = 0;
  legs = [];
  bundle = none;
  reason = some reason;
}

abbrev pub key_of : Option SupportedChain → Check ℕ
key_of (some match) = pure match.key
key_of none = throw (codes "Chain is not supported by the ChainInfo precompile.")

-- Every call started at once: all the answers, or what the first of them threw.
unfoldable pub ask_all : {A : Type 0} → (Text → Settled Text A) → List TransferLeg → Check (List A)
ask_all f [] = pure []
ask_all f (leg ∷ legs) =
    await (ask (f leg.fact_id)) λ a. await (ask_all f legs) λ rest. pure (a ∷ rest)

-- `(consumers[i] ?? 0n) === 0n ? null : consumers[i]`
abbrev pub consumer : ℕ → Option ℕ
consumer n = if n == 0 then none else some n

unfoldable pub statuses : List TransferLeg → List Bool → List ℕ → List LegStatus
statuses (leg ∷ legs) (b ∷ bs) (n ∷ ns) =
    record { leg = leg; in_registry = b; consumed_by = consumer n } ∷ statuses legs bs ns
statuses (leg ∷ legs) [] (n ∷ ns) =
    record { leg = leg; in_registry = false; consumed_by = consumer n } ∷ statuses legs [] ns
statuses (leg ∷ legs) (b ∷ bs) [] =
    record { leg = leg; in_registry = b; consumed_by = none } ∷ statuses legs bs []
statuses (leg ∷ legs) [] [] =
    record { leg = leg; in_registry = false; consumed_by = none } ∷ statuses legs [] []
statuses [] bs ns = []

abbrev pub is_some : {A : Type 0} → Option A → Bool
is_some none = false
is_some (some a) = true

-- `s.consumedBy !== null`
abbrev pub is_consumed : LegStatus → Bool
is_consumed status = is_some status.consumed_by

module _ (services : Services) (chain_id : ℕ) (hash : Text) where
  unfoldable pub resolve_source_chain_key : Check ℕ
  resolve_source_chain_key =
      await (ask services.supported_chains) λ chains. key_of (find (λ c. c.id == chain_id) chains)

  abbrev pub refuse : ℕ → UnverifiableReason → Check ClearanceResult
  refuse key reason = pure (unverifiable_as hash key chain_id reason)

  module _ (receipt : ChainReceipt) where
    abbrev pub answer : ℕ → Bundle → List LegStatus → ClearanceResult
    answer key built found = record {
      outcome = if exists is_consumed found then encumbered else clear;
      tx_hash = hash;
      chain_key = key;
      chain_id = chain_id;
      block_height = receipt.block_number;
      tx_index = receipt.transaction_index;
      legs = found;
      bundle = some built;
      reason = none;
    }

    -- 7: what the book says of every leg.
    unfoldable pub look_up : ℕ → List TransferLeg → Bundle → Check ClearanceResult
    unfolding statuses
    look_up key legs built = reporting registry (
        if not services.deployed
        then refuse key source_unreachable
        else await (ask_all services.vault_exists legs) λ present. reporting registry (
            reporting consumed (
              await (ask_all services.fact_consumed_by legs) λ consumers.
                reporting consumed (pure (answer key built (statuses legs present consumers))))))

    -- 6: the precompile decides, on the bundle that the builder sent.
    unfoldable pub decide : ℕ → List TransferLeg → Settled Text Bundle → Check ClearanceResult
    unfolding look_up
    decide key legs (rejected message) = refuse key proof_unavailable
    decide key legs (resolved built) = reporting proof (
        reporting verify (
          await (ask (services.verify_bundle built)) λ ok.
            if not ok
            then refuse key proof_rejected
            else reporting verify (look_up key legs built)))

    -- 4 and 5: attestation, then the bundle.
    unfoldable pub seek_proof : ℕ → List TransferLeg → Check ClearanceResult
    unfolding decide
    seek_proof key legs = reporting attest (
        await (ask (services.bounds_of key receipt.block_number)) λ bounds.
          if not bounds.is_attested
          then refuse key not_attested
          else reporting attest (reporting proof (decide key legs (services.proof_of key hash))))

    -- 3: the legs that the vault would accept.
    unfoldable pub identify : ℕ → Check ClearanceResult
    unfolding seek_proof
    identify key =
        let legs =
          transfer_legs services.fact_identity key receipt.block_number receipt.transaction_index
            receipt.logs in
        reporting identity (
          if is_empty legs
          then refuse key no_transfer_log
          else reporting identity (seek_proof key legs))

    -- 1, once the transaction is found, and 2.
    unfoldable pub found_receipt : Check ClearanceResult
    unfolding resolve_source_chain_key identify
    found_receipt =
        if not receipt.succeeded
        then refuse 0 reverted
        else reporting locate (
            reporting chainkey
              (await resolve_source_chain_key λ key. reporting chainkey (identify key)))

  unfoldable pub located : Settled Text ChainReceipt → Check ClearanceResult
  unfolding is_missing found_receipt
  located (rejected message) =
      refuse 0 (if is_missing message then not_found else source_unreachable)
  located (resolved receipt) = found_receipt receipt

unfoldable pub check_clearance : Services → ℕ → Text → Check ClearanceResult
unfolding is_hash trim unverifiable_as located
check_clearance services chain_id input =
    let trimmed = trim input in
    if not (is_hash trimmed)
    then pure (unverifiable_as trimmed 0 chain_id malformed_hash)
    else reporting locate (located services chain_id trimmed (services.receipt_of trimmed))
