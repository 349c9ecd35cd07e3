-- ===== src/Examples/Watches.antt =====
-- A chain with one transfer of a watched address in block 5, scanned up to block 9.
use clearbook.Prelude.{ℕ, ◌≤◌, ◌<◌, ◌≡◌, ◌==◌, refl, some, List, [], ◌∷◌, if◌then◌else◌, arith, All}
use clearbook.Text.{codes}
use clearbook.Async.{resolved}
use clearbook.Async.Returns.{Resolves}
use clearbook.Ranges.Cover.{in_span}
use clearbook.Db.Pool
use clearbook.Db.{answers, get_cursor}
use clearbook.Watch.{Source, WatchConfig, LogEntry, Scan, scan, start_of}
use clearbook.Watch.Crash.{IsCaughtUp, StoredBelow, scan-IsCaughtUp}
use clearbook.Watch.Finds.{IsHandled}
use clearbook.Watch.Reaches.{scan-IsAt}
use clearbook.Examples.{address, fact}

abbrev entry : LogEntry
entry = record {
  transaction_hash = codes "0x01";
  block_number = 5;
  transaction_index = 0;
  index = 12;
  address = address b'a';
  topics = fact b'd' ∷ fact b'c' ∷ fact b'b' ∷ [];
  bytes = fact b'0';
}

abbrev chain : ℕ → List LogEntry
chain block = if block == 5 then entry ∷ [] else []

abbrev pub source : Source
source = record {
  logs = λ a b. resolved (in_span chain a b);
  receipt = λ hash. resolved (some (record { status = 1; indices = 11 ∷ 12 ∷ [] }));
  get_address = λ a. a;
}

abbrev pub config : WatchConfig
config = record {
  chain_key = 1;
  token = address b'a';
  watched = address b'c' ∷ [];
  batch_size = some 4;
  lookback = some 8;
}

abbrev empty : Scan
empty = record {
  db = record {
    facts = [];
    next_id = 1;
    scan_cursor = [];
    latency_samples = [];
    pool = λ n. answers;
    asked = 0;
  };
  metrics = record { counters = []; samples = [] };
}

chain_answers :
    (a b : ℕ) (es : List LogEntry) → source.logs a b ≡ resolved es → es ≡ in_span chain a b
chain_answers a b es e = cc

empty-IsCaughtUp : IsCaughtUp source config chain chain_answers 1 empty
unfolding get_cursor
empty-IsCaughtUp = λ cursor e. cc

none_below :
    StoredBelow source config chain chain_answers 1
      (start_of source config (get_cursor 1 empty.db) 9)
      empty
unfolding get_cursor
none_below = λ b l u. absurd (omega arith)

-- The scan starts at block 1 and ends with the cursor at block 9.
reached : get_cursor 1 (scan source config 9 empty).1.db ≡ some 9
unfolding get_cursor
reached =
    (scan-IsAt source config ((λ a b. (_, refl)), (λ hash. (_, refl))) 9 empty (omega arith)
        (λ n. refl)).1
      (omega arith)

scan-IsCaughtUp_example : All (IsHandled source config (scan source config 9 empty).1) (chain 5)
scan-IsCaughtUp_example =
    scan-IsCaughtUp source config chain chain_answers 1 9 empty (omega arith) empty-IsCaughtUp
      none_below 9 reached 5 (omega arith) (omega arith)

scan-IsAt_example :
    Resolves (scan source config 9 empty).0
    × (start_of source config (get_cursor 1 empty.db) 9 ≤ 9
        → get_cursor 1 (scan source config 9 empty).1.db ≡ some 9)
    × (9 < start_of source config (get_cursor 1 empty.db) 9
        → (scan source config 9 empty).1 ≡ record empty { db = Pool.asked_once empty.db })
scan-IsAt_example =
    scan-IsAt source config ((λ a b. (_, refl)), (λ hash. (_, refl))) 9 empty (omega arith)
      (λ n. refl)
