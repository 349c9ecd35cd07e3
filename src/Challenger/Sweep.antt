-- ===== src/Challenger/Sweep.antt =====
-- One pass over the book: `openClaims`, `recentFacts`, `candidatesFor` and `sweep` of
-- worker/src/enforce.ts.
pub mod Safety
pub mod Results
pub mod Tries
use clearbook.Prelude.{
  ℕ, zero, suc, ◌+◌, ◌-◌, Bool, true, false, not, Option, none, some, List, [], ◌∷◌, ◌++◌, ltb,
  ◌==◌, if◌then◌else◌, keep,
}
use clearbook.Text.{Text}
use clearbook.Async.{Settled, resolved, rejected, Exec, pure, ◌>>=◌}
use clearbook.Ranges.{Span, spans}
use clearbook.Challenger.Filter.{Fact, OpenClaim, RepaymentView, matches_funding_leg}
use clearbook.Challenger.Node.{
  Node, Challenger, ChainLoan, ChainOriginator, call, get_block_number, next_loan_id, loans,
  originators, query_facts, get_fact, treasury_owner,
}
use clearbook.Challenger.Act.{Outcome, act}
use clearbook.Challenger.Act.Refusal.{is_confirmed}

-- LoanStatus.REPAYMENT_CLAIMED
abbrev pub repayment_claimed : ℕ
repayment_claimed = 2

abbrev pub fact_lookback_blocks : ℕ
fact_lookback_blocks = 20000

abbrev pub fact_chunk_blocks : ℕ
fact_chunk_blocks = 5000

abbrev pub pushed : {A : Type 0} → Option A → List A → List A
pushed none rest = rest
pushed (some a) rest = a ∷ rest

-- After one candidate: its outcome is recorded, and a confirmed one breaks the loop.
abbrev pub go_on :
    Option Outcome → Exec Text Challenger (List Outcome) → Exec Text Challenger (List Outcome)
go_on none others = others
go_on (some o) others =
    if is_confirmed o then pure (o ∷ []) else (do more ← others; pure (o ∷ more))

module _ (node : Node) where
  abbrev pub originator_of : ℕ → Exec Text Challenger ChainOriginator
  originator_of id = call (originators id) (λ h. node.originator h id)

  -- The claim of one loan, if it can be challenged at `head`; `none` is a `continue` of the loop.
  abbrev pub claim_of : ℕ → ℕ → ChainLoan → Exec Text Challenger (Option OpenClaim)
  claim_of head id loan = if not (loan.status == repayment_claimed) then pure none else do
    orig ← originator_of loan.originator_id
    let deadline = loan.claim_block + orig.challenge_window
    if ltb deadline head
        then pure none
        else pure (
            some (record {
              loan_id = id;
              originator_id = loan.originator_id;
              borrower = loan.borrower;
              disbursement_fact_id = loan.disbursement_fact_id;
              repayment_fact_id = loan.repayment_fact_id;
              circular_window = orig.circular_window;
              blocks_left = deadline - head;
            }))

  -- The loop over the identifiers from `id`, with `left` of them to go.
  unfoldable pub open_claims_from : ℕ → ℕ → ℕ → Exec Text Challenger (List OpenClaim)
  open_claims_from head id zero = pure []
  open_claims_from head id (suc left) = do
    loan ← call (loans id) (λ h. node.loan h id)
    claim ← claim_of head id loan
    rest ← open_claims_from head (id + 1) left
    pure (pushed claim rest)

  -- `for (let id = 1n; id < nextLoanId; id++)`
  unfoldable pub open_claims : ℕ → Exec Text Challenger (List OpenClaim)
  unfolding open_claims_from
  open_claims head = do
    next ← call next_loan_id (λ h. node.next_loan h)
    open_claims_from head 1 (next - 1)

  unfoldable pub facts_in : List Span → Exec Text Challenger (List Fact)
  facts_in [] = pure []
  facts_in (span ∷ rest) = do
    events ← call (query_facts span.first span.last) (λ h. node.facts h span.first span.last)
    more ← facts_in rest
    pure (events ++ more)

  unfoldable pub recent_facts : ℕ → Exec Text Challenger (List Fact)
  unfolding facts_in
  recent_facts head =
      let from = if ltb fact_lookback_blocks head then head - fact_lookback_blocks else 0 in
      facts_in (spans fact_chunk_blocks from head)

  -- The facts whose sender the claim's originator has bound.
  unfoldable pub owned_by : ℕ → List Fact → Exec Text Challenger (List Fact)
  owned_by originator_id [] = pure []
  owned_by originator_id (f ∷ rest) = do
    owner ← call (treasury_owner f.from) (λ h. node.owner h f.from)
    more ← owned_by originator_id rest
    pure (if not (owner == originator_id) then more else f ∷ more)

  unfoldable pub candidates_for : OpenClaim → List Fact → Exec Text Challenger (List Fact)
  unfolding owned_by
  candidates_for claim facts = do
    repayment ← call (get_fact claim.repayment_fact_id) (λ h. node.fact h claim.repayment_fact_id)
    owned_by claim.originator_id
        (keep (λ f. matches_funding_leg f repayment claim.circular_window claim) facts)

  module _ (strict : Bool) where
    -- The candidates of one claim, up to the first confirmed challenge.
    unfoldable pub act_on : OpenClaim → List Fact → Exec Text Challenger (List Outcome)
    act_on claim [] = pure []
    act_on claim (funding ∷ rest) = do
      outcome ← act node strict claim funding
      go_on outcome (act_on claim rest)

    unfoldable pub act_on_all : List Fact → List OpenClaim → Exec Text Challenger (List Outcome)
    unfolding act_on
    act_on_all facts [] = pure []
    act_on_all facts (claim ∷ rest) = do
      candidates ← candidates_for claim facts
      outcomes ← act_on claim candidates
      more ← act_on_all facts rest
      pure (outcomes ++ more)

    unfoldable pub sweep : Exec Text Challenger (List Outcome)
    unfolding act_on_all
    sweep = do
      head ← call get_block_number (λ h. node.block_number h)
      claims ← open_claims head
      elim claims [
        | [] ↦ pure []
        | claim ∷ rest ↦ (do facts ← recent_facts head; act_on_all facts (claim ∷ rest))
      ]
