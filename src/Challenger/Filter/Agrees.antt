-- ===== src/Challenger/Filter/Agrees.antt =====
-- The filter and the contract's predicate decide the same question: over well-formed strings, a
-- candidate passes the filter and the ownership test exactly when no guard reverts.
use clearbook.Prelude.{ℕ, ◌+◌, ◌≤◌, ◌≡◌, ◌↔◌, true, none, arith}
use clearbook.Text.{text_eq, same_ignoring_case}
use clearbook.Text.Hex.{
  IsHexString, IsCanonical, hex_string_value, same_ignoring_case_iff, text_eq-value_iff,
}
use clearbook.Contract.{ChainFact, LoanView, challenge_guards, repayment_claimed}
use clearbook.Challenger.Filter.{Fact, OpenClaim, RepaymentView, matches_funding_leg}

-- `c` is what the contract has stored for the fact `f`.
pub record IsStoredAs (f : Fact) (c : ChainFact) : Type 0 where
  pub id_canonical : IsCanonical 64 f.fact_id
  pub token_address : IsHexString 40 f.token
  pub from_address : IsHexString 40 f.from
  pub to_address : IsHexString 40 f.to
  pub same_chain : c.chain_key ≡ f.chain_key
  pub same_height : c.block_height ≡ f.block_height
  pub same_token : c.token ≡ hex_string_value f.token
  pub same_from : c.from ≡ hex_string_value f.from
  pub same_to : c.to ≡ hex_string_value f.to
  pub same_amount : c.amount ≡ f.amount

-- `r` is what the contract has stored for the repayment that `v` views.
pub record IsViewOf (v : RepaymentView) (r : ChainFact) : Type 0 where
  pub token_address : IsHexString 40 v.token
  pub from_address : IsHexString 40 v.from
  pub same_chain : r.chain_key ≡ v.chain_key
  pub same_height : r.block_height ≡ v.block_height
  pub same_token : r.token ≡ hex_string_value v.token
  pub same_from : r.from ≡ hex_string_value v.from
  pub same_amount : r.amount ≡ v.amount

-- `loan` is what the contract has stored for the open claim.
pub record IsClaimOf (claim : OpenClaim) (loan : LoanView) : Type 0 where
  pub repayment_canonical : IsCanonical 64 claim.repayment_fact_id
  pub disbursement_canonical : IsCanonical 64 claim.disbursement_fact_id
  pub same_originator : loan.originator_id ≡ claim.originator_id
  pub same_window : loan.circular_window ≡ claim.circular_window
  pub same_repayment : loan.repayment_fact_id ≡ hex_string_value claim.repayment_fact_id
  pub same_disbursement : loan.disbursement_fact_id ≡ hex_string_value claim.disbursement_fact_id
  pub claimed : loan.status ≡ repayment_claimed

module _ (f : Fact) (c : ChainFact) (v : RepaymentView) (r : ChainFact) (claim : OpenClaim)
    (loan : LoanView) (now owner : ℕ) (stored : IsStoredAs f c) (viewed : IsViewOf v r)
    (claimed : IsClaimOf claim loan)
    (open_window : now ≤ loan.claim_block + loan.challenge_window) where
  -- The four comparisons of strings that the filter makes, as comparisons of the contract's numbers.
  comparisons :
      ((text_eq f.fact_id claim.repayment_fact_id ≡ true)
        ↔ (hex_string_value f.fact_id ≡ hex_string_value claim.repayment_fact_id))
      × ((text_eq f.fact_id claim.disbursement_fact_id ≡ true)
          ↔ (hex_string_value f.fact_id ≡ hex_string_value claim.disbursement_fact_id))
      × ((same_ignoring_case f.token v.token ≡ true)
          ↔ (hex_string_value f.token ≡ hex_string_value v.token))
      × ((same_ignoring_case f.to v.from ≡ true)
          ↔ (hex_string_value f.to ≡ hex_string_value v.from))
  comparisons = (
    text_eq-value_iff 64 f.fact_id claim.repayment_fact_id stored.id_canonical
        claimed.repayment_canonical,
    text_eq-value_iff 64 f.fact_id claim.disbursement_fact_id stored.id_canonical
        claimed.disbursement_canonical,
    same_ignoring_case_iff 40 f.token v.token stored.token_address viewed.token_address,
    same_ignoring_case_iff 40 f.to v.from stored.to_address viewed.from_address,
  )

  matches-guards :
      matches_funding_leg f v claim.circular_window claim ≡ true
      → owner ≡ claim.originator_id
      → challenge_guards loan now (hex_string_value f.fact_id) c r owner ≡ none
  unfolding matches_funding_leg challenge_guards
  matches-guards m o = ground (arith, comparisons)

  guards-matches :
      challenge_guards loan now (hex_string_value f.fact_id) c r owner ≡ none
      → (matches_funding_leg f v claim.circular_window claim ≡ true) × (owner ≡ claim.originator_id)
  unfolding matches_funding_leg challenge_guards
  guards-matches g = ground (arith, comparisons)

  -- For a claim inside its window, whose facts and loan are stored as they are viewed, with identifiers
  -- in lower case, a fact passes the off-chain filter and the ownership test exactly when no guard of the contract reverts.
  pub filter-eq-guards :
      ((matches_funding_leg f v claim.circular_window claim ≡ true) × (owner ≡ claim.originator_id))
      ↔ (challenge_guards loan now (hex_string_value f.fact_id) c r owner ≡ none)
  filter-eq-guards = (λ p. matches-guards p.0 p.1, guards-matches)
