-- ===== src/Db.antt =====
-- The worker's store (worker/src/db.ts and worker/migrations/001_init.sql), with each statement as a
-- function on the tables. A unique constraint refuses a row that agrees with another one in the whole
-- key; a key with a NULL in it agrees with none.
pub mod Rows
pub mod Writes
pub mod Queue
pub mod Insert
pub mod Keys
pub mod Claim
pub mod Pool
pub mod Queries
use clearbook.Prelude.{
  ℕ, zero, suc, ◌+◌, Bool, true, false, not, ◌&&◌, ◌||◌, Option, none, some, List, [], ◌∷◌, ◌++◌,
  map, leb, ltb, ◌==◌, if◌then◌else◌, find, exists, keep, take, length,
}
use clearbook.Text.{Text, codes, text_eq}
use clearbook.Async.{Settled, resolved, rejected, Exec}

pub data FactState : Type 0 where
  discovered waiting_attestation proved precheck_failed submitted confirmed failed : FactState

pub record FactRow : Type 0 where
  pub id : ℕ
  pub chain_key : ℕ
  pub block_height : ℕ
  pub tx_hash : Text
  pub tx_index : Option ℕ
  pub log_index : ℕ
  pub token : Option Text
  pub sender : Option Text
  pub recipient : Option Text
  pub amount : Option Text
  pub fact_id : Option Text
  pub state : FactState
  pub attempts : ℕ
  pub last_error : Option Text
  pub cc_tx_hash : Option Text
  pub correlation_id : Text

pub record LatencySample : Type 0 where
  pub tx_hash : Text
  pub t_broadcast : Option ℕ
  pub t_included : Option ℕ
  pub t_finalized : Option ℕ
  pub t_attested : Option ℕ
  pub t_proved : Option ℕ
  pub t_cc_confirmed : Option ℕ

-- What the connection pool makes of a query: the statement is answered, or the query throws, before the
-- statement has run or after.
pub data PoolReply : Type 0 where
  answers : PoolReply
  fails_before fails_after : Text → PoolReply

-- `next_id` is the sequence behind BIGSERIAL; rows stand in the order of their insertion.
-- `pool` is what becomes of each query, by the number of those asked before.
pub record Db : Type 0 where
  pub facts : List FactRow
  pub next_id : ℕ
  pub scan_cursor : List (ℕ × ℕ)
  pub latency_samples : List LatencySample
  pub pool : ℕ → PoolReply
  pub asked : ℕ

-- COALESCE(a, b)
abbrev pub coalesce {ℓ} : {A : Type ℓ} → Option A → Option A → Option A
coalesce none b = b
coalesce (some a) b = some a

-- a = b, where NULL equals nothing.
abbrev pub same_number : Option ℕ → Option ℕ → Bool
same_number none b = false
same_number (some a) none = false
same_number (some a) (some b) = a == b

abbrev pub same_text : Option Text → Option Text → Bool
same_text none b = false
same_text (some a) none = false
same_text (some a) (some b) = text_eq a b

-- UNIQUE (chain_key, block_height, tx_index, log_index)
unfoldable pub same_key : FactRow → FactRow → Bool
same_key a b =
    a.chain_key == b.chain_key
    && a.block_height == b.block_height
    && same_number a.tx_index b.tx_index
    && a.log_index == b.log_index

-- Two rows break a constraint: the key above, or fact_id UNIQUE. A row is not compared with itself,
-- which is the row with its identifier: that identifiers differ, as the primary key asks, is `IsKeyed`,
-- which Db.Keys shows of every statement: they come from a sequence, and no UPDATE writes one.
unfoldable pub conflicts : FactRow → FactRow → Bool
unfolding same_key
conflicts a b = not (a.id == b.id) && (same_key a b || same_text a.fact_id b.fact_id)

pub record Discovery : Type 0 where
  pub chain_key : ℕ
  pub block_height : ℕ
  pub tx_hash : Text
  pub tx_index : Option ℕ
  pub log_index : ℕ
  pub token : Option Text
  pub sender : Option Text
  pub recipient : Option Text
  pub amount : Option Text
  pub correlation_id : Text

-- The row that the INSERT offers, with the table's defaults.
abbrev pub row_of : ℕ → Discovery → FactRow
row_of id input = record {
  id = id;
  chain_key = input.chain_key;
  block_height = input.block_height;
  tx_hash = input.tx_hash;
  tx_index = input.tx_index;
  log_index = input.log_index;
  token = input.token;
  sender = input.sender;
  recipient = input.recipient;
  amount = input.amount;
  fact_id = none;
  state = discovered;
  attempts = 0;
  last_error = none;
  cc_tx_hash = none;
  correlation_id = input.correlation_id;
}

-- ON CONFLICT DO NOTHING: the sequence moves on, and no row comes back.
unfoldable pub insert_discovered : Discovery → Db → Option FactRow × Db
unfolding same_key
insert_discovered input db =
    let row = row_of db.next_id input in
    if exists (same_key row) db.facts
    then (none, record db { next_id = db.next_id + 1 })
    else (some row, record db { facts = db.facts ++ (row ∷ []); next_id = db.next_id + 1 })

-- state IN ('WAITING_ATTESTATION', 'PROVED', 'SUBMITTED')
abbrev pub is_stranded : FactState → Bool
is_stranded discovered = false
is_stranded waiting_attestation = true
is_stranded proved = true
is_stranded precheck_failed = false
is_stranded submitted = true
is_stranded confirmed = false
is_stranded failed = false

abbrev pub requeue_row : FactRow → FactRow
requeue_row r =
    if is_stranded r.state
    then record r {
      state = discovered;
      last_error = coalesce r.last_error (some (codes "requeued after restart"));
    }
    else r

-- The number of rows changed, and the table after.
unfoldable pub requeue_stranded : Db → ℕ × Db
requeue_stranded db = (
  length (keep (λ r. is_stranded r.state) db.facts),
  record db { facts = map requeue_row db.facts },
)

-- ORDER BY block_height ASC, log_index ASC; rows that tie keep the table's order.
abbrev pub before : FactRow → FactRow → Bool
before a b =
    ltb a.block_height b.block_height
    || (a.block_height == b.block_height && leb a.log_index b.log_index)

abbrev pub insert_ordered : FactRow → List FactRow → List FactRow
insert_ordered r [] = r ∷ []
insert_ordered r (x ∷ xs) = if before r x then r ∷ x ∷ xs else x ∷ insert_ordered r xs

unfoldable pub order_rows : List FactRow → List FactRow
order_rows [] = []
order_rows (r ∷ rs) = insert_ordered r (order_rows rs)

-- A SELECT outside a transaction: its row locks are gone when it returns, and it changes nothing.
unfoldable pub claim_next : (FactState → Bool) → ℕ → Db → List FactRow
claim_next wanted limit db = take limit (order_rows (keep (λ r. wanted r.state) db.facts))

pub record Patch : Type 0 where
  pub fact_id : Option Text
  pub tx_index : Option ℕ
  pub cc_tx_hash : Option Text
  pub last_error : Option Text

abbrev pub no_patch : Patch
no_patch = record { fact_id = none; tx_index = none; cc_tx_hash = none; last_error = none }

abbrev pub patched : FactState → Patch → FactRow → FactRow
patched state patch r = record r {
  state = state;
  fact_id = coalesce patch.fact_id r.fact_id;
  tx_index = coalesce patch.tx_index r.tx_index;
  cc_tx_hash = coalesce patch.cc_tx_hash r.cc_tx_hash;
  last_error = patch.last_error;
}

-- The row of an identifier, and a row put in its place.
abbrev pub row : ℕ → List FactRow → Option FactRow
row id = find (λ r. r.id == id)

abbrev pub replace_row : ℕ → FactRow → List FactRow → List FactRow
replace_row id r [] = []
replace_row id r (x ∷ xs) = if x.id == id then r ∷ xs else x ∷ replace_row id r xs

-- An UPDATE of one row by its primary key; one that breaks a constraint throws and writes nothing.
abbrev pub write_row : ℕ → (FactRow → FactRow) → Option FactRow → Exec Text Db (Unit {0})
write_row id change none db = (resolved tt, db)
write_row id change (some r) db =
    if exists (conflicts (change r)) db.facts
    then (rejected (codes "duplicate key value violates unique constraint"), db)
    else (resolved tt, record db { facts = replace_row id (change r) db.facts })

abbrev pub update_row : ℕ → (FactRow → FactRow) → Exec Text Db (Unit {0})
update_row id change db = write_row id change (row id db.facts) db

unfoldable pub set_state : ℕ → FactState → Patch → Exec Text Db (Unit {0})
unfolding conflicts
set_state id state patch = update_row id (patched state patch)

abbrev pub attempted : Text → FactRow → FactRow
attempted error r = record r { attempts = r.attempts + 1; last_error = some error }

unfoldable pub record_attempt : ℕ → Text → Exec Text Db (Unit {0})
unfolding conflicts
record_attempt id error = update_row id (attempted error)

-- GROUP BY state: a state that no row has does not appear.
unfoldable pub count_by_state : Db → (FactState → Bool) → Option ℕ
count_by_state db is_state =
    let n = length (keep (λ r. is_state r.state) db.facts) in if n == 0 then none else some n

abbrev pub lookup_cursor : ℕ → List (ℕ × ℕ) → Option ℕ
lookup_cursor chain_key [] = none
lookup_cursor chain_key ((k, b) ∷ rest) =
    let other = lookup_cursor chain_key rest in if k == chain_key then some b else other

abbrev pub upsert_cursor : ℕ → ℕ → List (ℕ × ℕ) → List (ℕ × ℕ)
upsert_cursor chain_key last_block [] = (chain_key, last_block) ∷ []
upsert_cursor chain_key last_block ((k, b) ∷ rest) =
    if k == chain_key
    then (k, last_block) ∷ rest
    else (k, b) ∷ upsert_cursor chain_key last_block rest

unfoldable pub get_cursor : ℕ → Db → Option ℕ
get_cursor chain_key db = lookup_cursor chain_key db.scan_cursor

unfoldable pub set_cursor : ℕ → ℕ → Db → Db
set_cursor chain_key last_block db = record db {
  scan_cursor = upsert_cursor chain_key last_block db.scan_cursor;
}

unfoldable pub record_latency : LatencySample → Db → Db
record_latency sample db = record db { latency_samples = db.latency_samples ++ (sample ∷ []) }
