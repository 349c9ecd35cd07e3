-- ===== src/Clearance/Check/Returns.antt =====
-- The check returns a result for every input, as long as the calls outside its `try` blocks answer.
use clearbook.Prelude.{
  is_empty, ℕ, ◌≡◌, refl, Bool, true, false, not, some, List, [], ◌∷◌, if◌then◌else◌, find, ◌==◌,
}
use clearbook.Text.{Text}
use clearbook.Async.{Settled, resolved, rejected, pure, after}
use clearbook.Clearance.Legs.{TransferLeg, transfer_legs}
use clearbook.Text.Parts.{trim}
use clearbook.Text.Hex.{is_hash}
use clearbook.Clearance.Check.{
  ClearanceResult, ClearanceStep, ChainReceipt, Bundle, SupportedChain, Services, Check, ask, await,
  reporting, ask_all, look_up, decide, seek_proof, identify, found_receipt, located,
  check_clearance, resolve_source_chain_key,
}

record Returns {A : Type 0} (m : Check A) : Type 0 where
  result : (steps : List ClearanceStep) → (a : A) × ((m steps).0 ≡ resolved a)

abbrev pub Resolves : {A : Type 0} → Settled Text A → Type 0
Resolves {A} r = (a : A) × (r ≡ resolved a)

module _ {A : Type 0} where
  Returns-pure : (a : A) → Returns (pure a)
  Returns-pure a = record { result = λ steps. (a, refl) }

  Returns-ask : (r : Settled Text A) → Resolves r → Returns (ask r)
  Returns-ask r h = record { result = λ steps. h }

  Returns-if : (b : Bool) (m n : Check A) → Returns m → Returns n → Returns (if b then m else n)
  Returns-if true m n p q = p
  Returns-if false m n p q = q

  Returns-reporting : (step : ClearanceStep) (m : Check A) → Returns m → Returns (reporting step m)
  unfolding reporting
  Returns-reporting step m h = record { result = λ steps. h.result (step ∷ steps) }

module _ {A B : Type 0} where
  followed :
      (f : A → Check B) (r : Settled Text A) (steps : List ClearanceStep)
      → ((a : A) → Returns (f a))
      → (a : A) → r ≡ resolved a
      → (b : B) × ((after f r steps).0 ≡ resolved b)
  followed f (resolved a) steps k a' e = (k a).result steps
  followed f (rejected x) steps k a' e = cc

  Returns-await :
      (m : Check A) (f : A → Check B) → Returns m → ((a : A) → Returns (f a)) → Returns (await m f)
  unfolding await
  Returns-await m f h k = record {
    result = λ steps. let (a, e) = h.result steps in followed f (m steps).0 (m steps).1 k a e;
  }

ask_all-Returns :
    {A : Type 0} (f : Text → Settled Text A) (legs : List TransferLeg)
    → ((id : Text) → Resolves (f id))
    → Returns (ask_all f legs)
unfolding ask_all
ask_all-Returns f [] h = Returns-pure _
ask_all-Returns f (leg ∷ legs) h =
    Returns-await _ _ (Returns-ask _ (h leg.fact_id))
      λ a. Returns-await _ _ (ask_all-Returns f legs h) λ rest. Returns-pure _

-- The calls that no `try` guards answer: the list of the supported chains, which has the chain, the
-- bounds, the precompile and the two mappings.
abbrev pub Answering : Services → ℕ → Type 0
Answering services chain_id =
    ((chains : List SupportedChain) × (match : SupportedChain) × (services.supported_chains
        ≡ resolved chains)
      × (find (λ c. c.id == chain_id) chains ≡ some match))
    × ((key height : ℕ) → Resolves (services.bounds_of key height))
    × ((built : Bundle) → Resolves (services.verify_bundle built))
    × ((id : Text) → Resolves (services.vault_exists id))
    × ((id : Text) → Resolves (services.fact_consumed_by id))

module _ (services : Services) (chain_id : ℕ) (answering : Answering services chain_id) where
  module _ (hash : Text) where
    resolve-Returns : Returns (resolve_source_chain_key services chain_id hash)
    unfolding resolve_source_chain_key await
    resolve-Returns = record {
      result = λ steps. let (chains, match, e, f) = answering.0 in (match.key, rw (e, f) refl);
    }

    module _ (receipt : ChainReceipt) (key : ℕ) where
      look_up-Returns :
          (legs : List TransferLeg) (built : Bundle)
          → Returns (look_up services chain_id hash receipt key legs built)
      unfolding look_up
      look_up-Returns legs built = Returns-reporting _ _ (
          Returns-if (not services.deployed) _ _ (Returns-pure _) (
            Returns-await _ _ (ask_all-Returns services.vault_exists legs answering.3) λ present.
              Returns-reporting _ _ (
                Returns-reporting _ _ (
                  Returns-await _ _ (ask_all-Returns services.fact_consumed_by legs answering.4)
                    λ consumers. Returns-reporting _ _ (Returns-pure _)))))

      decide-Returns :
          (legs : List TransferLeg) (reply : Settled Text Bundle)
          → Returns (decide services chain_id hash receipt key legs reply)
      unfolding decide
      decide-Returns legs (rejected message) = Returns-pure _
      decide-Returns legs (resolved built) = Returns-reporting _ _ (
          Returns-reporting _ _ (
            Returns-await _ _ (Returns-ask _ (answering.2 built)) λ ok.
              Returns-if (not ok) _ _ (Returns-pure _)
                (Returns-reporting _ _ (look_up-Returns legs built))))

      seek_proof-Returns :
          (legs : List TransferLeg) → Returns (seek_proof services chain_id hash receipt key legs)
      unfolding seek_proof
      seek_proof-Returns legs = Returns-reporting _ _ (
          Returns-await _ _ (Returns-ask _ (answering.1 key receipt.block_number)) λ bounds.
            Returns-if (not bounds.is_attested) _ _ (Returns-pure _)
              (Returns-reporting _ _ (Returns-reporting _ _ (decide-Returns legs _))))

      identify-Returns : Returns (identify services chain_id hash receipt key)
      unfolding identify
      identify-Returns = Returns-reporting _ _ (
          Returns-if
            (is_empty (
              transfer_legs services.fact_identity key receipt.block_number
                receipt.transaction_index receipt.logs))
            _ _ (Returns-pure _) (Returns-reporting _ _ (seek_proof-Returns _)))

    located-Returns :
        (reply : Settled Text ChainReceipt) → Returns (located services chain_id hash reply)
    unfolding located found_receipt
    located-Returns (rejected message) = Returns-pure _
    located-Returns (resolved receipt) = Returns-if (not receipt.succeeded) _ _ (Returns-pure _) (
        Returns-reporting _ _ (
          Returns-reporting _ _ (
            Returns-await _ _ resolve-Returns
              λ key. Returns-reporting _ _ (identify-Returns receipt key))))

  -- When the list of the supported chains, which has the chain, the attestation bounds, the precompile,
  -- the vault and the book answer every call, the check of any input returns a result, also when the
  -- source chain or the proof builder throws.
  pub check_clearance-Returns :
      (input : Text) (steps : List ClearanceStep)
      → (r : ClearanceResult) × ((check_clearance services chain_id input steps).0 ≡ resolved r)
  unfolding check_clearance
  check_clearance-Returns input steps =
      (Returns-if (not (is_hash (trim input))) _ _ (Returns-pure _) (
          Returns-reporting _ _
            (located-Returns (trim input) (services.receipt_of (trim input))))).result
        steps
