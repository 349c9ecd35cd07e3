-- ===== src/Challenger/Node.antt =====
-- The challenger's object and the calls that it makes of the node (worker/src/enforce.ts). The node is
-- not part of the repository: what it answers is any function of the calls made so far.
use clearbook.Prelude.{ℕ, Option, List, ◌∷◌}
use clearbook.Text.{Text}
use clearbook.Text.Assoc.{TextSet}
use clearbook.Async.{Settled, Exec}
use clearbook.Metrics.{Metrics}
use clearbook.Challenger.Filter.{Fact, RepaymentView}

pub data Request : Type 0 where
  get_block_number next_loan_id : Request
  loans originators : ℕ → Request
  query_facts : ℕ → ℕ → Request
  get_fact treasury_owner : Text → Request
  static_call broadcast : ℕ → Text → Request
  wait : Text → Request

-- `loans(id)` and `originators(id)` of the contract, in the fields that the challenger reads.
pub record ChainLoan : Type 0 where
  pub status : ℕ
  pub originator_id : ℕ
  pub claim_block : ℕ
  pub borrower : Text
  pub disbursement_fact_id : Text
  pub repayment_fact_id : Text

pub record ChainOriginator : Type 0 where
  pub challenge_window : ℕ
  pub circular_window : ℕ

-- A log of a receipt, as `parseLog` reads it: it throws, finds no event, or finds one by its name and
-- its `bounty` argument.
pub record ParsedLog : Type 0 where
  pub name : Text
  pub bounty : ℕ

pub record Receipt : Type 0 where
  pub status : ℕ
  pub block_number : ℕ
  pub logs : List (Settled Text (Option ParsedLog))

-- The calls made, the last one first.
abbrev pub History : Type 0
History = List Request

-- The answers of the node. `static_call` is the simulation, whose value the challenger does not read.
pub record Node : Type 0 where
  pub block_number : History → Settled Text ℕ
  pub next_loan : History → Settled Text ℕ
  pub loan : History → ℕ → Settled Text ChainLoan
  pub originator : History → ℕ → Settled Text ChainOriginator
  pub facts : History → ℕ → ℕ → Settled Text (List Fact)
  pub fact : History → Text → Settled Text RepaymentView
  pub owner : History → Text → Settled Text ℕ
  pub simulation : History → ℕ → Text → Settled Text (Unit {0})
  pub transaction : History → ℕ → Text → Settled Text Text
  pub receipt : History → Text → Settled Text (Option Receipt)

-- The fields of `ReferenceChallenger` that change, the counters of the worker, and the calls made.
pub record Challenger : Type 0 where
  pub refused : TextSet
  pub metrics : Metrics
  pub history : History

-- One call: it is recorded, and answered from the calls before it.
abbrev pub call : {A : Type 0} → Request → (History → Settled Text A) → Exec Text Challenger A
call request answer s = (answer s.history, record s { history = request ∷ s.history })
