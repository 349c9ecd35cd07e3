-- ===== src/Clearance/Check/Bundles.antt =====
-- The answer and the bundle that it was verified with.
use clearbook.Prelude.{
  is_empty, ℕ, ◌≡◌, refl, Bool, true, false, not, Option, none, some, List, ◌∷◌, if◌then◌else◌,
}
use clearbook.Text.{Text}
use clearbook.Async.{Settled, resolved, rejected, after}
use clearbook.Clearance.Legs.{TransferLeg, transfer_legs}
use clearbook.Text.Parts.{trim}
use clearbook.Text.Hex.{is_hash}
use clearbook.Clearance.Check.{
  ClearanceResult, ClearanceStep, ClearanceOutcome, LegStatus, ChainReceipt, Bundle, Services,
  Check, await, reporting, look_up, decide, seek_proof, identify, found_receipt, located,
  check_clearance, resolve_source_chain_key,
}

-- What the page decides on: the outcome, and the legs with their statuses.
abbrev pub view : Settled Text ClearanceResult → Option (ClearanceOutcome × List LegStatus)
view (resolved r) = some (r.outcome, r.legs)
view (rejected e) = none

record Same (m n : Check ClearanceResult) : Type 0 where
  same : (steps : List ClearanceStep) → view (m steps).0 ≡ view (n steps).0

Same-refl : (m : Check ClearanceResult) → Same m m
Same-refl m = record { same = λ steps. refl }

Same-if :
    (b : Bool) (m n p q : Check ClearanceResult)
    → Same m p
    → Same n q
    → Same (if b then m else n) (if b then p else q)
Same-if true m n p q h k = h
Same-if false m n p q h k = k

Same-reporting :
    (step : ClearanceStep) (m n : Check ClearanceResult)
    → Same m n
    → Same (reporting step m) (reporting step n)
unfolding reporting
Same-reporting step m n h = record { same = λ steps. h.same (step ∷ steps) }

followed :
    {A : Type 0} (f g : A → Check ClearanceResult) (r : Settled Text A) (steps : List ClearanceStep)
    → ((a : A) → Same (f a) (g a))
    → view (after f r steps).0 ≡ view (after g r steps).0
followed f g (resolved a) steps h = (h a).same steps
followed f g (rejected e) steps h = refl

Same-await :
    {A : Type 0} (m : Check A) (f g : A → Check ClearanceResult)
    → ((a : A) → Same (f a) (g a))
    → Same (await m f) (await m g)
unfolding await
Same-await m f g h = record { same = λ steps. followed f g (m steps).0 (m steps).1 h }

module _ (services : Services) (chain_id : ℕ) (built other : Bundle) where
  -- The services with a builder that sends this bundle for every hash.
  abbrev pub sending : Bundle → Services
  sending bundle = record services { proof_of = λ key hash. resolved bundle }

  module _ (verified : services.verify_bundle built ≡ services.verify_bundle other)
      (hash : Text) where
    module _ (receipt : ChainReceipt) (key : ℕ) where
      look_up-Same :
          (legs : List TransferLeg)
          → Same
              (look_up (sending built) chain_id hash receipt key legs built)
              (look_up (sending other) chain_id hash receipt key legs other)
      unfolding look_up
      look_up-Same legs = Same-reporting _ _ _ (
          Same-if (not services.deployed) _ _ _ _ (Same-refl _) (
            Same-await _ _ _ λ present. Same-reporting _ _ _ (
              Same-reporting _ _ _ (
                Same-await _ _ _
                  λ consumers. Same-reporting _ _ _ (record { same = λ steps. refl })))))

      seek_proof-Same :
          (legs : List TransferLeg)
          → Same
              (seek_proof (sending built) chain_id hash receipt key legs)
              (seek_proof (sending other) chain_id hash receipt key legs)
      unfolding seek_proof decide
      seek_proof-Same legs = Same-reporting _ _ _ (
          Same-await _ _ _ λ bounds. Same-if (not bounds.is_attested) _ _ _ _ (Same-refl _) (
            Same-reporting _ _ _ (
              Same-reporting _ _ _ (
                Same-reporting _ _ _ (
                  Same-reporting _ _ _ (
                    rw verified (
                      Same-await _ _ _ λ ok.
                        Same-if (not ok) _ _ _ _ (Same-refl _)
                          (Same-reporting _ _ _ (look_up-Same legs)))))))))

      identify-Same :
          Same
            (identify (sending built) chain_id hash receipt key)
            (identify (sending other) chain_id hash receipt key)
      unfolding identify
      identify-Same = Same-reporting _ _ _ (
          Same-if
            (is_empty (
              transfer_legs services.fact_identity key receipt.block_number
                receipt.transaction_index receipt.logs))
            _ _ _ _ (Same-refl _) (Same-reporting _ _ _ (seek_proof-Same _)))

    located-Same :
        (reply : Settled Text ChainReceipt)
        → Same
            (located (sending built) chain_id hash reply)
            (located (sending other) chain_id hash reply)
    unfolding located found_receipt resolve_source_chain_key
    located-Same (rejected e) = Same-refl _
    located-Same (resolved receipt) = Same-if (not receipt.succeeded) _ _ _ _ (Same-refl _) (
        Same-reporting _ _ _ (
          Same-reporting _ _ _
            (Same-await _ _ _ λ key. Same-reporting _ _ _ (identify-Same receipt key))))

  -- The outcome and the legs do not depend on which transaction the builder's bundle is about: any two
  -- bundles on which the precompile answers alike give the same outcome and the same legs for every
  -- input, also where only one of them is of the located transaction.
  pub check_clearance-any_bundle :
      services.verify_bundle built ≡ services.verify_bundle other
      → (input : Text) (steps : List ClearanceStep)
      → view (check_clearance (sending built) chain_id input steps).0
        ≡ view (check_clearance (sending other) chain_id input steps).0
  unfolding check_clearance
  check_clearance-any_bundle verified input steps =
      (Same-if (not (is_hash (trim input))) _ _ _ _ (Same-refl _) (
          Same-reporting _ _ _
            (located-Same verified (trim input) (services.receipt_of (trim input))))).same
        steps
