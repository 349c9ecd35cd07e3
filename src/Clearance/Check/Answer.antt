-- ===== src/Clearance/Check/Answer.antt =====
-- What a clearance answer rests on: no answer about the book is given for a transaction that the
-- precompile did not rule on, and the answer is the book's on every leg.
use clearbook.Prelude.{is_empty, ℕ, ◌≡◌, refl, inl, inr, Bool, true, false, not, List, arith}
use clearbook.Text.{Text}
use clearbook.Async.{Settled, resolved, rejected, pure}
use clearbook.Clearance.Legs.{TransferLeg, transfer_legs}
use clearbook.Text.Parts.{trim}
use clearbook.Text.Hex.{is_hash}
use clearbook.Clearance.Check.{
  ClearanceResult, ClearanceStep, UnverifiableReason, malformed_hash, ChainReceipt, Bundle, Bounds,
  Services, Check, refuse, statuses, answer, look_up, decide, seek_proof, identify, found_receipt,
  located, check_clearance, unverifiable_as,
}
use clearbook.Clearance.Check.Yields.{
  Yields, Yields-pure, Yields-if, Yields-await, Yields-reporting, Yields-ask, Answers,
  ask_all-Answers,
}
use clearbook.Clearance.Check.Verdicts.{IsJustified, statuses-IsStatus, verdict}

module _ (services : Services) where
  module _ (chain_id : ℕ) (hash : Text) where
    refused :
        (key : ℕ) (reason : UnverifiableReason)
        → Yields (IsJustified services hash) (refuse services chain_id hash key reason)
    unfolding unverifiable_as
    refused key reason = Yields-pure _ (inl (refl, refl, refl, (reason, refl)))

    module _ (receipt : ChainReceipt) (is_located : services.receipt_of hash ≡ resolved receipt)
        (is_success : receipt.succeeded ≡ true) (key : ℕ) where
      abbrev legs : List TransferLeg
      legs =
          transfer_legs services.fact_identity key receipt.block_number receipt.transaction_index
            receipt.logs

      module _ (bounds : Bounds)
          (is_bounded : services.bounds_of key receipt.block_number ≡ resolved bounds)
          (is_attested : bounds.is_attested ≡ true) where
        concluded :
            (built : Bundle)
            → services.proof_of key hash ≡ resolved built
            → services.verify_bundle built ≡ resolved true
            → (present : List Bool) (consumers : List ℕ)
            → Answers services.vault_exists legs present
            → Answers services.fact_consumed_by legs consumers
            → Yields (IsJustified services hash) (
                pure (
                  answer services chain_id hash receipt key built
                    (statuses legs present consumers)))
        concluded built is_built is_verified present consumers hp hc =
            let found = statuses-IsStatus services legs present consumers hp hc in
            Yields-pure _ (
              inr (record {
                receipt = receipt;
                bounds = bounds;
                built = built;
                is_located = is_located;
                is_success = is_success;
                is_bounded = is_bounded;
                is_attested = is_attested;
                is_built = is_built;
                is_verified = is_verified;
                is_of_all_legs = found.1;
                has_status = found.0;
                has_verdict = verdict services _ found.0;
              }))

        look_up-IsJustified :
            (built : Bundle)
            → services.proof_of key hash ≡ resolved built
            → services.verify_bundle built ≡ resolved true
            → Yields
                (IsJustified services hash)
                (look_up services chain_id hash receipt key legs built)
        unfolding look_up
        look_up-IsJustified built is_built is_verified = Yields-reporting _ _ (
            Yields-if (not services.deployed) _ _ (λ _. refused key _)
              λ _. Yields-await _ _ (ask_all-Answers services.vault_exists legs) λ present hp.
                Yields-reporting _ _ (
                  Yields-reporting _ _ (
                    Yields-await _ _ (ask_all-Answers services.fact_consumed_by legs)
                      λ consumers hc.
                        Yields-reporting _ _
                          (concluded built is_built is_verified present consumers hp hc))))

        ruled :
            (built : Bundle) (ok : Bool)
            → services.verify_bundle built ≡ resolved ok
            → not ok ≡ false
            → services.verify_bundle built ≡ resolved true
        ruled built true h holds = h
        ruled built false h holds = cc

        decide-IsJustified :
            (reply : Settled Text Bundle)
            → services.proof_of key hash ≡ reply
            → Yields
                (IsJustified services hash)
                (decide services chain_id hash receipt key legs reply)
        unfolding decide
        decide-IsJustified (rejected message) e = refused key _
        decide-IsJustified (resolved built) e = Yields-reporting _ _ (
            Yields-reporting _ _ (
              Yields-await _ _ (Yields-ask (services.verify_bundle built)) λ ok h.
                Yields-if (not ok) _ _ (λ _. refused key _)
                  λ holds.
                    Yields-reporting _ _ (look_up-IsJustified built e (ruled built ok h holds))))

      attested : (bounds : Bounds) (k : not bounds.is_attested ≡ false) → bounds.is_attested ≡ true
      attested bounds k = ground arith

      seek_proof-IsJustified :
          Yields (IsJustified services hash) (seek_proof services chain_id hash receipt key legs)
      unfolding seek_proof
      seek_proof-IsJustified = Yields-reporting _ _ (
          Yields-await _ _ (Yields-ask (services.bounds_of key receipt.block_number)) λ bounds h.
            Yields-if (not bounds.is_attested) _ _ (λ _. refused key _)
              λ k.
                Yields-reporting _ _
                  (Yields-reporting _ _ (decide-IsJustified bounds h (attested bounds k) _ refl)))

      identify-IsJustified :
          Yields (IsJustified services hash) (identify services chain_id hash receipt key)
      unfolding identify
      identify-IsJustified = Yields-reporting _ _ (
          Yields-if (is_empty legs) _ _ (λ _. refused key _)
            λ _. Yields-reporting _ _ seek_proof-IsJustified)

    Yields-any : {A : Type 0} (m : Check A) → Yields (λ _. Unit {0}) m
    Yields-any m = record { yield = λ steps a e. tt }

    succeeds : (receipt : ChainReceipt) → not receipt.succeeded ≡ false → receipt.succeeded ≡ true
    succeeds receipt k = ground arith

    located-IsJustified :
        (reply : Settled Text ChainReceipt)
        → services.receipt_of hash ≡ reply
        → Yields (IsJustified services hash) (located services chain_id hash reply)
    unfolding located found_receipt
    located-IsJustified (rejected message) e = refused 0 _
    located-IsJustified (resolved receipt) e =
        Yields-if (not receipt.succeeded) _ _ (λ _. refused 0 _)
          λ k. Yields-reporting _ _ (
            Yields-reporting _ _ (
              Yields-await _ _ (Yields-any _) λ key _.
                Yields-reporting _ _ (identify-IsJustified receipt e (succeeds receipt k) key)))

  -- Whatever the two chains and the proof builder answer, when the check of an input returns a result
  -- it is a refusal, `unverifiable` with a reason and without a leg; or the transaction of the trimmed
  -- input is on the source chain and did not revert, its block is attested, the precompile returned
  -- true on the bundle that the builder gave for it, the result has all its transfer legs in their
  -- order with what the vault and the book answered on each, and its outcome is `clear` with every leg
  -- free or `encumbered` with a leg that a loan consumed.
  pub check_clearance-IsJustified :
      (chain_id : ℕ) (input : Text) (steps : List ClearanceStep) (r : ClearanceResult)
      → (check_clearance services chain_id input steps).0 ≡ resolved r
      → IsJustified services (trim input) r
  unfolding check_clearance unverifiable_as
  check_clearance-IsJustified chain_id input steps r e =
      (Yields-if (not (is_hash (trim input))) _ _
          (λ _. Yields-pure _ (inl (refl, refl, refl, (malformed_hash, refl))))
          λ _. Yields-reporting _ _ (located-IsJustified chain_id (trim input) _ refl)).yield
        steps r e
