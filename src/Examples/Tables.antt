-- ===== src/Examples/Tables.antt =====
-- A table with a confirmed fact and one that a crash left in flight.
use clearbook.Prelude.{true, false, ◌++◌, arith, ◌≡◌, refl, none, some, [], ◌∷◌}
use clearbook.Text.{codes, text_eq}
use clearbook.Db.{
  FactRow, Db, Discovery, answers, waiting_attestation, confirmed, row, same_key, conflicts,
  insert_discovered, requeue_stranded, claim_next, order_rows, is_stranded,
}
use clearbook.Db.Rows.{IsConsistent}
use clearbook.Db.Queue.{Recovered, requeue-Recovered}
use clearbook.Db.Claim.{IsFirst, claim_next-IsFirst}
use clearbook.Db.Keys.{IsKeyed}
use clearbook.Db.Insert.{IsRowOf, is_known, insert-Inserts}

abbrev pub done_row : FactRow
done_row = record {
  id = 1;
  chain_key = 1;
  block_height = 100;
  tx_hash = codes "0x01";
  tx_index = some 3;
  log_index = 0;
  token = none;
  sender = none;
  recipient = none;
  amount = none;
  fact_id = some (codes "0xf1");
  state = confirmed;
  attempts = 0;
  last_error = none;
  cc_tx_hash = some (codes "0xc1");
  correlation_id = codes "a";
}

abbrev pub flying_row : FactRow
flying_row = record {
  id = 2;
  chain_key = 1;
  block_height = 101;
  tx_hash = codes "0x02";
  tx_index = none;
  log_index = 0;
  token = none;
  sender = none;
  recipient = none;
  amount = none;
  fact_id = none;
  state = waiting_attestation;
  attempts = 1;
  last_error = none;
  cc_tx_hash = none;
  correlation_id = codes "b";
}

abbrev pub table : Db
table = record {
  facts = done_row ∷ flying_row ∷ [];
  next_id = 3;
  scan_cursor = [];
  latency_samples = [];
  pool = λ n. answers;
  asked = 0;
}

pub table-IsConsistent : IsConsistent table.facts
unfolding conflicts same_key text_eq
table-IsConsistent = ((refl, (refl, tt)), ((refl, (refl, tt)), tt))

abbrev found_again : Discovery
found_again = record {
  chain_key = 1;
  block_height = 100;
  tx_hash = codes "0x01";
  tx_index = some 3;
  log_index = 0;
  token = none;
  sender = none;
  recipient = none;
  amount = none;
  correlation_id = codes "c";
}

requeue-Recovered_example :
    ((r : FactRow)
      → row 2 table.facts ≡ some r
      → (r' : FactRow) × (row 2 (requeue_stranded table).1.facts ≡ some r') × Recovered r r')
    × (row 2 table.facts ≡ none → row 2 (requeue_stranded table).1.facts ≡ none)
requeue-Recovered_example = requeue-Recovered table 2

pub table-IsKeyed : IsKeyed table
table-IsKeyed = ((omega arith, (omega arith, tt)), ((λ e. absurd (omega (arith, e)), tt), (tt, tt)))

insert-Inserts_example :
    IsConsistent (insert_discovered found_again table).1.facts
    × IsKeyed (insert_discovered found_again table).1
    × (is_known found_again table ≡ true
        → ((insert_discovered found_again table).0 ≡ none)
          × ((insert_discovered found_again table).1.facts ≡ table.facts))
    × (is_known found_again table ≡ false
        → (r : FactRow) × ((insert_discovered found_again table).0 ≡ some r)
          × ((insert_discovered found_again table).1.facts ≡ table.facts ++ r ∷ [])
          × IsRowOf found_again r)
insert-Inserts_example = insert-Inserts found_again table table-IsConsistent table-IsKeyed

-- Two rows in flight, of which the one inserted later stands in an earlier block.
abbrev early_row : FactRow
early_row = record flying_row { id = 3; block_height = 99 }

abbrev backlog : Db
backlog = record table { facts = done_row ∷ flying_row ∷ early_row ∷ [] }

claim_next-IsFirst_example : IsFirst 1 (flying_row ∷ early_row ∷ []) (early_row ∷ [])
unfolding claim_next order_rows
claim_next-IsFirst_example = claim_next-IsFirst is_stranded 1 backlog
