-- ===== src/Examples/Projections.antt =====
-- A range with a breach and its bounty in one transaction, scanned twice.
use clearbook.Prelude.{ℕ, ◌≡◌, ◌==◌, refl, some, List, [], ◌∷◌, arith, if◌then◌else◌}
use clearbook.Text.{Text, codes}
use clearbook.Async.{resolved}
use clearbook.Ranges.{Span}
use clearbook.Ranges.Cover.{in_span}
use clearbook.Projection.Upsert.{upsert_all}
use clearbook.Projection.Whole.{sync-whole}
use clearbook.Projection.{
  Emitted, FactStored, TreasuryBound, FactRecord, each_parsed, fact_entry, bound_entry, sync, Feed,
  RangeLogs, empty_read_model, scan_range,
}
use clearbook.Projection.Rescan.{scan_range_idem}

abbrev range : Span
range = record { first = 0; last = 9 }

abbrev logs : RangeLogs
logs = record {
  fact_logs = [];
  bound_logs =
      record {
        transaction_hash = codes "0x01";
        block_number = 3;
        parsed = some (record { originator_id = 7; eth_address = codes "0xCC" });
      }
      ∷ [];
  breach_logs =
      record {
        transaction_hash = codes "0x02";
        block_number = 5;
        parsed = some (record {
          loan_id = 1;
          covenant_id = 1;
          funding_fact_id = codes "0xf1";
          repayment_fact_id = codes "0xf2";
          challenger = codes "0xee";
        });
      }
      ∷ [];
  bounty_logs =
      record {
        transaction_hash = codes "0x02";
        block_number = 5;
        parsed = some (record { bounty = 40; to_sink = 60 });
      }
      ∷ [];
}

abbrev feed : Feed
feed = record { head = resolved 9; range_logs = λ span. resolved logs }

scan_range_idem_example :
    ((scan_range feed range empty_read_model).0 ≡ resolved tt)
    × (scan_range feed range (scan_range feed range empty_read_model).1
        ≡ (resolved tt, (scan_range feed range empty_read_model).1))
scan_range_idem_example = scan_range_idem feed range logs empty_read_model refl

abbrev stored_in : ℕ → List (Emitted FactStored)
stored_in block =
    if block == 2500
    then record {
      transaction_hash = codes "0x03";
      block_number = 2500;
      parsed = some (record {
        fact_id = codes "0xF1";
        chain_key = 1;
        block_height = 100;
        tx_index = 0;
        log_index = 2;
        token = codes "0xaa";
        from = codes "0xcc";
        to = codes "0xbb";
        amount = 500;
        submitter = codes "0xee";
      });
    }
      ∷ []
    else []

abbrev bound_in : ℕ → List (Emitted TreasuryBound)
bound_in block = []

-- Blocks 1 to 5000 are three ranges.
abbrev long_feed : Feed
long_feed = record {
  head = resolved 5000;
  range_logs = λ span. resolved (record {
    fact_logs = in_span stored_in span.first span.last;
    bound_logs = in_span bound_in span.first span.last;
    breach_logs = [];
    bounty_logs = [];
  });
}

sync-whole_example :
    ((sync long_feed (some 1) empty_read_model).0 ≡ resolved tt)
    × ((sync long_feed (some 1) empty_read_model).1.facts
        ≡ upsert_all
            (λ (p : Text × FactRecord). p.0)
            (each_parsed fact_entry (in_span stored_in 1 5000))
            [])
    × ((sync long_feed (some 1) empty_read_model).1.bound_treasuries
        ≡ upsert_all
            (λ (p : Text × Text). p.0)
            (each_parsed bound_entry (in_span bound_in 1 5000))
            [])
    × ((sync long_feed (some 1) empty_read_model).1.last_scanned_block ≡ 5000)
sync-whole_example =
    sync-whole long_feed stored_in bound_in (λ span. []) (λ span. []) (λ span. refl) (some 1) 5000
      empty_read_model refl (omega arith)
