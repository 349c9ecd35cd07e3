-- ===== src/Examples/Sweeps.antt =====
-- One pass over a book with one loan, whose repayment is circular.
use clearbook.Prelude.{
  ℕ, ◌-◌, ◌≡◌, ◌==◌, refl, true, false, if◌then◌else◌, some, List, [], ◌∷◌, keep, sub_ℕ,
}
use clearbook.Text.{codes, text_eq, to_lower_case, lower_unit, same_ignoring_case}
use clearbook.Text.Assoc.{has}
use clearbook.Async.{resolved}
use clearbook.Ranges.Cover.{in_span}
use clearbook.Challenger.Filter.{Fact, eq, funding_leg_shape, same_borrower}
use clearbook.Challenger.Node.{Node, Challenger, ChainLoan, ChainOriginator}
use clearbook.Challenger.Act.{act, Outcome, confirmed, gated_challenge, bounty_from}
use clearbook.Challenger.Act.Gate.{IsGated}
use clearbook.Challenger.Act.Refusal.{Tried, act-Tried}
use clearbook.Challenger.Sweep.{act_on, sweep, recent_facts, open_claims, fact_lookback_blocks}
use clearbook.Challenger.Sweep.Safety.{sweep-IsGated}
use clearbook.Challenger.Sweep.Tries.{Tries, act_on-Tries}
use clearbook.Challenger.Sweep.Results.{
  recent_facts-window, open_claims-ids, is_open, ids_of, ids_from,
}
use clearbook.Examples.{address, fact}
use clearbook.Examples.Matches.{funding_fact, open_claim, repayment_view}

abbrev book : ℕ → ChainLoan
book id = record {
  status = 2;
  originator_id = 7;
  claim_block = 20;
  borrower = address b'b';
  disbursement_fact_id = fact b'3';
  repayment_fact_id = fact b'2';
}

abbrev registry : ℕ → ChainOriginator
registry id = record { challenge_window = 100; circular_window = 60 }

-- The funding fact was stored in block 10.
abbrev chain : ℕ → List Fact
chain n = if n == 10 then funding_fact ∷ [] else []

abbrev pub node : Node
node = record {
  block_number = λ h. resolved 50;
  next_loan = λ h. resolved 2;
  loan = λ h id. resolved (book id);
  originator = λ h id. resolved (registry id);
  facts = λ h a b. resolved (in_span chain a b);
  fact = λ h id. resolved repayment_view;
  owner = λ h a. resolved 7;
  simulation = λ h i f. resolved tt;
  transaction = λ h i f. resolved (codes "0x5e");
  receipt = λ h hash. resolved (
      some (record {
        status = 1;
        block_number = 51;
        logs = resolved (some (record { name = codes "BountyPaid"; bounty = 40 })) ∷ [];
      }));
}

abbrev fresh : Challenger
fresh = record { refused = []; metrics = record { counters = []; samples = [] }; history = [] }

sweep-IsGated_example : IsGated node (sweep node false fresh).1.history
sweep-IsGated_example = sweep-IsGated node false fresh tt

act-Tried_example :
    Tried node true open_claim funding_fact
      (act node true open_claim funding_fact fresh).0
      fresh
      (act node true open_claim funding_fact fresh).1
act-Tried_example = act-Tried node true open_claim funding_fact fresh

act_on-Tries_example :
    (os : List Outcome) × ((act_on node false open_claim (funding_fact ∷ funding_fact ∷ []) fresh).0
      ≡ resolved os)
    × Tries node false open_claim
        (funding_fact ∷ funding_fact ∷ [])
        fresh
        os
        (act_on node false open_claim (funding_fact ∷ funding_fact ∷ []) fresh).1
act_on-Tries_example = act_on-Tries node false open_claim (funding_fact ∷ funding_fact ∷ []) fresh

-- The first candidate is confirmed, and the second is not tried.
confirmed_first :
    (act_on node false open_claim (funding_fact ∷ funding_fact ∷ []) fresh).0
    ≡ resolved (confirmed 1 (fact b'1') (codes "0x5e") 40 (sub_ℕ 51 10) same_borrower ∷ [])
unfolding act_on act gated_challenge funding_leg_shape eq same_ignoring_case to_lower_case text_eq
    has lower_unit bounty_from
confirmed_first = refl

recent_facts-window_example :
    (recent_facts node 50 fresh).0 ≡ resolved (in_span chain (50 - fact_lookback_blocks) 50)
recent_facts-window_example = recent_facts-window node chain (λ h a b. refl) 50 fresh

open_claims-ids_example :
    ids_of node book registry (λ h id. refl) (λ h id. refl) (open_claims node 50 fresh).0
    ≡ some (
        keep
          (is_open node book registry (λ h id. refl) (λ h id. refl) 50)
          (ids_from node book registry (λ h id. refl) (λ h id. refl) 1 1))
open_claims-ids_example =
    open_claims-ids node book registry (λ h id. refl) (λ h id. refl) 50 2 fresh refl
