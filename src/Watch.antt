-- ===== src/Watch.antt =====
-- The watcher (worker/src/watch.ts): the transfers of the watched addresses, up to the attested height,
-- into the store. The source chain answers as it stands during the scan, or throws; `getAddress`, which
-- writes an address with its checksum, is a parameter.
pub mod Growth
pub mod Finds
pub mod Crash
pub mod Reaches
pub mod Keeps
use clearbook.Prelude.{
  ℕ, zero, suc, ◌+◌, ◌-◌, Bool, true, false, not, ◌&&◌, ◌||◌, Option, none, some, or_else, List, [],
  ◌∷◌, ◌++◌, map, ltb, ◌==◌, if◌then◌else◌, length, drop,
}
use clearbook.Text.{Text, codes, text_eq, to_lower_case}
use clearbook.Text.Assoc.{Assoc, TextSet, lookup, insert, has, add}
use clearbook.Text.Decimal.{decimal}
use clearbook.Text.Hex.{hex_value}
use clearbook.Async.{Settled, resolved, rejected, Exec, pure, read, modify, ◌>>=◌, ◌>>◌}
use clearbook.Metrics.{Metrics, increment}
use clearbook.Ranges.{Span, spans}
use clearbook.Db.{Db, FactRow, Discovery}
use clearbook.Db.Pool
use clearbook.Coverage.{index_of}

pub record WatchConfig : Type 0 where
  pub chain_key : ℕ
  pub token : Text
  pub watched : List Text
  pub batch_size : Option ℕ
  pub lookback : Option ℕ

pub record LogEntry : Type 0 where
  pub transaction_hash : Text
  pub block_number : ℕ
  pub transaction_index : ℕ
  pub index : ℕ
  pub address : Text
  pub topics : List Text
  pub bytes : Text

-- A receipt of the source chain, with the block-wide indices of its logs.
pub record LogReceipt : Type 0 where
  pub status : ℕ
  pub indices : List ℕ

pub record Source : Type 0 where
  pub logs : ℕ → ℕ → Settled Text (List LogEntry)
  pub receipt : Text → Settled Text (Option LogReceipt)
  pub get_address : Text → Text

pub record Scan : Type 0 where
  pub db : Db
  pub metrics : Metrics

abbrev pub Cache : Type 0
Cache = Assoc (List ℕ)

abbrev pub ask : {A : Type 0} → Settled Text A → Exec Text Scan A
ask answer s = (answer, s)

-- A method of the store.
abbrev pub storing : {A : Type 0} → Exec Text Db A → Exec Text Scan A
storing m s = let (r, db') = m s.db in (r, record s { db = db' })

-- `receipt.logs.map((l) => l.index)`, unless the transaction is missing or failed.
unfoldable pub indices_in : Option LogReceipt → Option (List ℕ)
indices_in none = none
indices_in (some receipt) = if not (receipt.status == 1) then none else some receipt.indices

module _ (source : Source) (config : WatchConfig) where
  abbrev pub watched_from : List Text → TextSet
  watched_from [] = []
  watched_from (a ∷ rest) = add (to_lower_case (source.get_address a)) (watched_from rest)

  abbrev pub is_watched : Text → Bool
  is_watched address = has (to_lower_case address) (watched_from config.watched)

  -- `getAddress('0x' + topic.slice(26))`
  abbrev pub party : Text → Text
  party topic = source.get_address (b'0' ∷ b'x' ∷ drop 26 topic)

  -- The sender and the recipient of a log that is a transfer of a watched address.
  abbrev pub watched_parties : Text → List Text → Option (Text × Text)
  watched_parties bytes (t0 ∷ t1 ∷ t2 ∷ []) =
      if not (length bytes == 66)
      then none
      else if not (is_watched (party t1)) && not (is_watched (party t2))
      then none
      else some (party t1, party t2)
  watched_parties bytes [] = none
  watched_parties bytes (t0 ∷ []) = none
  watched_parties bytes (t0 ∷ t1 ∷ []) = none
  watched_parties bytes (t0 ∷ t1 ∷ t2 ∷ t3 ∷ more) = none

  -- The receipt's indices, from the cache or from the chain; only those of a success are kept.
  abbrev pub keep_indices : Text → Cache → Option (List ℕ) → Cache
  keep_indices hash cache none = cache
  keep_indices hash cache (some indices) = insert hash indices cache

  abbrev pub find_indices :
      Text → Cache → Option (List ℕ) → Exec Text Scan (Cache × Option (List ℕ))
  find_indices hash cache (some indices) = pure (cache, some indices)
  find_indices hash cache none = do
    receipt ← ask (source.receipt hash)
    pure (keep_indices hash cache (indices_in receipt), indices_in receipt)

  abbrev pub correlation_of : LogEntry → ℕ → Text
  correlation_of entry local_index =
      decimal config.chain_key
      ++ (codes "-"
          ++ (decimal entry.block_number
              ++ (codes "-"
                  ++ (decimal entry.transaction_index ++ (codes "-" ++ decimal local_index)))))

  abbrev pub discovery_of : LogEntry → Text × Text → ℕ → Discovery
  discovery_of entry (from, to) local_index = record {
    chain_key = config.chain_key;
    block_height = entry.block_number;
    tx_hash = entry.transaction_hash;
    tx_index = some entry.transaction_index;
    log_index = local_index;
    token = some (source.get_address entry.address);
    sender = some from;
    recipient = some to;
    amount = some (decimal (hex_value (drop 2 entry.bytes)));
    correlation_id = correlation_of entry local_index;
  }

  abbrev pub insert_row : Discovery → Exec Text Scan (Option FactRow)
  insert_row discovery = storing (Pool.insert_discovered discovery)

  -- 1 for a new row, and 0 for one that was there.
  abbrev pub counted : Option FactRow → Exec Text Scan ℕ
  counted none = pure 0
  counted (some row) =
      modify (λ s. record s { metrics = increment (codes "facts_discovered_total") [] 1 s.metrics })
      >> pure 1

  abbrev pub place : LogEntry → Option (List ℕ) → Option ℕ
  place entry none = none
  place entry (some indices) = index_of entry.index indices

  abbrev pub store_at : LogEntry → Text × Text → Option ℕ → Exec Text Scan ℕ
  store_at entry parties none = pure 0
  store_at entry parties (some local_index) =
      insert_row (discovery_of entry parties local_index) >>= counted

  -- The body of the loop over the logs: the cache after it, and the number of new rows.
  abbrev pub visit_parties : Cache → LogEntry → Option (Text × Text) → Exec Text Scan (Cache × ℕ)
  visit_parties cache entry none = pure (cache, 0)
  visit_parties cache entry (some parties) = do
    (cache', indices) ←
        find_indices entry.transaction_hash cache (lookup entry.transaction_hash cache)
    n ← store_at entry parties (place entry indices)
    pure (cache', n)

  abbrev pub visit : Cache → LogEntry → Exec Text Scan (Cache × ℕ)
  visit cache entry = visit_parties cache entry (watched_parties entry.bytes entry.topics)

  unfoldable pub scan_entries : Cache → List LogEntry → Exec Text Scan ℕ
  unfolding index_of indices_in
  scan_entries cache [] = pure 0
  scan_entries cache (entry ∷ rest) = do
    (cache', n) ← visit cache entry
    more ← scan_entries cache' rest
    pure (n + more)

  unfoldable pub scan_range : Span → Exec Text Scan ℕ
  unfolding scan_entries
  scan_range span = do entries ← ask (source.logs span.first span.last); scan_entries [] entries

  abbrev pub save_cursor : ℕ → Exec Text Scan (Unit {0})
  save_cursor last = storing (Pool.set_cursor config.chain_key last)

  -- The cursor is saved after each range.
  unfoldable pub scan_spans : List Span → Exec Text Scan ℕ
  unfolding scan_range
  scan_spans [] = pure 0
  scan_spans (span ∷ rest) = do
    n ← scan_range span
    save_cursor span.last
    more ← scan_spans rest
    pure (n + more)

  abbrev pub start_of : Option ℕ → ℕ → ℕ
  start_of none attested_height = attested_height - or_else config.lookback 2000
  start_of (some cursor) attested_height = cursor + 1

  unfoldable pub scan : ℕ → Exec Text Scan ℕ
  unfolding scan_spans
  scan attested_height = do
    cursor ← storing (Pool.get_cursor config.chain_key)
    if ltb attested_height (start_of cursor attested_height)
        then pure 0
        else scan_spans (
            spans (or_else config.batch_size 500) (start_of cursor attested_height) attested_height)
