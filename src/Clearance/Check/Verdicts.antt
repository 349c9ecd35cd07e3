-- ===== src/Clearance/Check/Verdicts.antt =====
-- The statuses of the legs, the verdict on them, and what it means that an answer is justified.
use clearbook.Prelude.{
  ℕ, zero, suc, ◌≡◌, refl, sym, ap, ◌∙◌, ◌⊎◌, inl, inr, Bool, true, false, none, some, List, [],
  ◌∷◌, map, arith, if◌then◌else◌, exists, exists-All, All, All-imp, All-zip, Bool-cases,
}
use clearbook.Text.{Text}
use clearbook.Async.{resolved}
use clearbook.Clearance.Legs.{TransferLeg, transfer_legs}
use clearbook.Clearance.Check.{
  ClearanceResult, ClearanceOutcome, clear, encumbered, unverifiable, UnverifiableReason, LegStatus,
  ChainReceipt, Bundle, Bounds, Services, consumer, statuses, is_consumed, is_some,
}
use clearbook.Clearance.Check.Yields.{Answers}

no_loan : (n : ℕ) → is_some (consumer n) ≡ false → n ≡ 0
no_loan zero e = refl
no_loan (suc n) e = ground arith

loan_of : (n : ℕ) → is_some (consumer n) ≡ true → (m : ℕ) × (n ≡ suc m)
loan_of zero e = ground arith
loan_of (suc n) e = (n, refl)

module _ (services : Services) where
  -- The status is what the vault and the book answered on the leg.
  abbrev pub IsStatus : LegStatus → Type 0
  IsStatus status =
      (services.vault_exists status.leg.fact_id ≡ resolved status.in_registry)
      × ((n : ℕ) × (services.fact_consumed_by status.leg.fact_id ≡ resolved n)
          × (status.consumed_by ≡ consumer n))

  -- The statuses are of these legs, in their order.
  pub statuses-IsStatus :
      (legs : List TransferLeg) (present : List Bool) (consumers : List ℕ)
      → Answers services.vault_exists legs present
      → Answers services.fact_consumed_by legs consumers
      → All IsStatus (statuses legs present consumers)
        × (map (λ status. status.leg) (statuses legs present consumers) ≡ legs)
  unfolding statuses
  statuses-IsStatus [] present consumers h k = (tt, refl)
  statuses-IsStatus (leg ∷ legs) (b ∷ present) (n ∷ consumers) h k =
      let rest = statuses-IsStatus legs present consumers h.1 k.1 in
      (((h.0, (n, k.0, refl)), rest.0), cc (rest.1))
  statuses-IsStatus (leg ∷ legs) [] consumers h k = absurd h
  statuses-IsStatus (leg ∷ legs) (b ∷ present) [] h k = absurd k

  -- One of the legs is consumed, by a loan whose number is not 0.
  abbrev pub SomeConsumed : List LegStatus → Type 0
  SomeConsumed [] = ⊥
  SomeConsumed (status ∷ rest) =
      ((n : ℕ) × (services.fact_consumed_by status.leg.fact_id ≡ resolved (suc n)))
      ⊎ SomeConsumed rest

  -- Every leg is free, or one of them is consumed, as the outcome says.
  abbrev pub Verdict : ClearanceOutcome → List LegStatus → Type 0
  Verdict clear legs =
      All (λ status. services.fact_consumed_by status.leg.fact_id ≡ resolved 0) legs
  Verdict encumbered legs = SomeConsumed legs
  Verdict unverifiable legs = ⊥

  taken-SomeConsumed :
      (found : List LegStatus)
      → All IsStatus found
      → exists is_consumed found ≡ true
      → SomeConsumed found
  taken-SomeConsumed [] h e = cc
  taken-SomeConsumed (status ∷ rest) h e = elim (Bool-cases (is_consumed status)) [
    | inl held ↦
        let (stored, (n, got, at)) = h.0 in
        let (m, same) = loan_of n (sym (ap is_some at) ∙ held) in inl (m, got ∙ ap resolved same)
    | inr fails ↦ inr (taken-SomeConsumed rest h.1 (ground arith))
  ]

  free :
      (status : LegStatus)
      → IsStatus status
      → is_consumed status ≡ false
      → services.fact_consumed_by status.leg.fact_id ≡ resolved 0
  free status h e =
      let (stored, (n, got, at)) = h in got ∙ ap resolved (no_loan n (sym (ap is_some at) ∙ e))

  free-All :
      (found : List LegStatus)
      → All IsStatus found
      → exists is_consumed found ≡ false
      → Verdict clear found
  free-All found h e =
      All-imp _ _ found (λ status k. free status k.0 k.1)
        (All-zip _ _ found h (exists-All is_consumed found e))

  pub verdict :
      (found : List LegStatus)
      → All IsStatus found
      → Verdict (if exists is_consumed found then encumbered else clear) found
  verdict found h = elim (Bool-cases (exists is_consumed found)) [
    | inl held ↦ rw held (taken-SomeConsumed found h held)
    | inr fails ↦ rw fails (free-All found h fails)
  ]

  -- The check refused to answer, with a reason and with no leg.
  abbrev pub IsRefusal : ClearanceResult → Type 0
  IsRefusal r =
      (r.outcome ≡ unverifiable)
      × (r.legs ≡ [])
      × (r.bundle ≡ none)
      × ((reason : UnverifiableReason) × (r.reason ≡ some reason))

  -- The check answered: the transaction is on the source chain and did not revert, its block is
  -- attested, the precompile returned true on the bundle that the builder gave for the hash, and the
  -- statuses are those of all its transfer legs.
  pub record IsAnswered (hash : Text) (r : ClearanceResult) : Type 0 where
    pub receipt : ChainReceipt
    pub bounds : Bounds
    pub built : Bundle
    pub is_located : services.receipt_of hash ≡ resolved receipt
    pub is_success : receipt.succeeded ≡ true
    pub is_bounded : services.bounds_of r.chain_key receipt.block_number ≡ resolved bounds
    pub is_attested : bounds.is_attested ≡ true
    pub is_built : services.proof_of r.chain_key hash ≡ resolved built
    pub is_verified : services.verify_bundle built ≡ resolved true
    pub is_of_all_legs :
        map (λ status. status.leg) r.legs
        ≡ transfer_legs services.fact_identity r.chain_key receipt.block_number
            receipt.transaction_index receipt.logs
    pub has_status : All IsStatus r.legs
    pub has_verdict : Verdict r.outcome r.legs

  abbrev pub IsJustified : Text → ClearanceResult → Type 0
  IsJustified hash r = IsRefusal r ⊎ IsAnswered hash r
