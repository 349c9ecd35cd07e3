-- ===== src/Projection.antt =====
-- The read model of the worker's event projection (worker/src/index.ts). A log comes with what
-- `parseLog` reads of it, if it reads anything; the queries of the node are a parameter.
pub mod Upsert
pub mod Rescan
pub mod Whole
use clearbook.Prelude.{
  ℕ, ◌+◌, Bool, true, false, not, Option, none, some, or_else, List, [], ◌∷◌, ltb, ◌==◌,
  if◌then◌else◌,
}
use clearbook.Text.{Text, text_eq, to_lower_case}
use clearbook.Text.Assoc.{Assoc, lookup, insert}
use clearbook.Text.Decimal.{decimal}
use clearbook.Async.{Settled, resolved, rejected, Exec, pure, modify, ◌>>=◌, ◌>>◌, for_each}
use clearbook.Ranges.{Span, spans}
use clearbook.Projection.Upsert.{upsert, upsert_all}

pub record FactRecord : Type 0 where
  pub fact_id : Text
  pub chain_key : ℕ
  pub block_height : ℕ
  pub tx_index : ℕ
  pub log_index : ℕ
  pub token : Text
  pub from : Text
  pub to : Text
  pub amount : Text
  pub submitter : Text
  pub cc_tx_hash : Text
  pub cc_block : ℕ

pub record BreachRecord : Type 0 where
  pub loan_id : Text
  pub covenant_id : ℕ
  pub funding_fact_id : Text
  pub repayment_fact_id : Text
  pub challenger : Text
  pub bounty : Option Text
  pub to_sink : Option Text
  pub cc_tx_hash : Text
  pub cc_block : ℕ

-- The two records keyed by text are lists of pairs in the order in which the keys came first.
pub record ReadModel : Type 0 where
  pub facts : List (Text × FactRecord)
  pub bound_treasuries : List (Text × Text)
  pub breaches : List BreachRecord
  pub last_scanned_block : ℕ

abbrev pub empty_read_model : ReadModel
empty_read_model = record {
  facts = [];
  bound_treasuries = [];
  breaches = [];
  last_scanned_block = 0;
}

abbrev pub scan_window : ℕ
scan_window = 2000

-- A log with the arguments that `parseLog` reads.
pub record Emitted (A : Type 0) : Type 0 where
  pub transaction_hash : Text
  pub block_number : ℕ
  pub parsed : Option A

pub record FactStored : Type 0 where
  pub fact_id : Text
  pub chain_key : ℕ
  pub block_height : ℕ
  pub tx_index : ℕ
  pub log_index : ℕ
  pub token : Text
  pub from : Text
  pub to : Text
  pub amount : ℕ
  pub submitter : Text

pub record TreasuryBound : Type 0 where
  pub originator_id : ℕ
  pub eth_address : Text

pub record CovenantBreached : Type 0 where
  pub loan_id : ℕ
  pub covenant_id : ℕ
  pub funding_fact_id : Text
  pub repayment_fact_id : Text
  pub challenger : Text

pub record BountyPaid : Type 0 where
  pub bounty : ℕ
  pub to_sink : ℕ

-- The answers of the four queries of one range.
pub record RangeLogs : Type 0 where
  pub fact_logs : List (Emitted FactStored)
  pub bound_logs : List (Emitted TreasuryBound)
  pub breach_logs : List (Emitted CovenantBreached)
  pub bounty_logs : List (Emitted BountyPaid)

pub record Feed : Type 0 where
  pub head : Settled Text ℕ
  pub range_logs : Span → Settled Text RangeLogs

-- `if (!parsed) continue;`
abbrev pub pushed : {A B : Type 0} → (A → B) → Option A → List B → List B
pushed f none more = more
pushed f (some a) more = f a ∷ more

abbrev pub each_parsed : {A B : Type 0} → (Emitted A → A → B) → List (Emitted A) → List B
each_parsed f [] = []
each_parsed f (entry ∷ rest) = pushed (f entry) entry.parsed (each_parsed f rest)

abbrev pub fact_entry : Emitted FactStored → FactStored → Text × FactRecord
fact_entry entry a = (
  to_lower_case a.fact_id,
  record {
    fact_id = a.fact_id;
    chain_key = a.chain_key;
    block_height = a.block_height;
    tx_index = a.tx_index;
    log_index = a.log_index;
    token = a.token;
    from = a.from;
    to = a.to;
    amount = decimal a.amount;
    submitter = a.submitter;
    cc_tx_hash = entry.transaction_hash;
    cc_block = entry.block_number;
  },
)

abbrev pub bound_entry : Emitted TreasuryBound → TreasuryBound → Text × Text
bound_entry entry a = (to_lower_case a.eth_address, decimal a.originator_id)

-- `bountyByTx.get(hash)`: the last payment of the transaction in the range.
unfoldable pub bounty_of : Text → List (Emitted BountyPaid) → Option BountyPaid
bounty_of hash [] = none
bounty_of hash (entry ∷ rest) = pick (bounty_of hash rest)
  where
    pick : Option BountyPaid → Option BountyPaid
    pick (some paid) = some paid
    pick none = if text_eq entry.transaction_hash hash then entry.parsed else none

abbrev pub map_option : {A B : Type 0} → (A → B) → Option A → Option B
map_option f none = none
map_option f (some a) = some (f a)

abbrev pub breach_record :
    List (Emitted BountyPaid) → Emitted CovenantBreached → CovenantBreached → BreachRecord
breach_record bounty_logs entry a =
    let paid = bounty_of entry.transaction_hash bounty_logs in
    record {
      loan_id = decimal a.loan_id;
      covenant_id = a.covenant_id;
      funding_fact_id = a.funding_fact_id;
      repayment_fact_id = a.repayment_fact_id;
      challenger = a.challenger;
      bounty = map_option (λ b. decimal b.bounty) paid;
      to_sink = map_option (λ b. decimal b.to_sink) paid;
      cc_tx_hash = entry.transaction_hash;
      cc_block = entry.block_number;
    }

-- The four loops of `scanRange`.
unfoldable pub project : RangeLogs → ReadModel → ReadModel
unfolding upsert_all bounty_of
project logs model = record model {
  facts = upsert_all (λ p. p.0) (each_parsed fact_entry logs.fact_logs) model.facts;
  bound_treasuries =
      upsert_all (λ p. p.0) (each_parsed bound_entry logs.bound_logs) model.bound_treasuries;
  breaches =
      upsert_all (λ b. b.loan_id) (each_parsed (breach_record logs.bounty_logs) logs.breach_logs)
        model.breaches;
}

module _ (feed : Feed) where
  abbrev pub ask : {A : Type 0} → Settled Text A → Exec Text ReadModel A
  ask answer model = (answer, model)

  unfoldable pub scan_range : Span → Exec Text ReadModel (Unit {0})
  unfolding project
  scan_range span = do logs ← ask (feed.range_logs span); modify (project logs)

  abbrev pub scan_window_of : Span → Exec Text ReadModel (Unit {0})
  scan_window_of span = scan_range span >> modify (λ m. record m { last_scanned_block = span.last })

  abbrev pub sync_from : ℕ → ℕ → Exec Text ReadModel (Unit {0})
  sync_from head cursor =
      if ltb head cursor then pure tt else for_each scan_window_of (spans scan_window cursor head)

  -- The model is the object that `sync` changes and returns.
  unfoldable pub sync : Option ℕ → Exec Text ReadModel (Unit {0})
  unfolding scan_range
  sync from_block model =
      (do head ← ask feed.head; sync_from head (or_else from_block model.last_scanned_block)) model
