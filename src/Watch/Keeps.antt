-- ===== src/Watch/Keeps.antt =====
-- What a scan keeps: a property of the database that an insert and a cursor keep.
use clearbook.Prelude.{ℕ, ◌+◌, ltb, or_else, Option, none, some, List, [], ◌∷◌}
use clearbook.Text.{Text}
use clearbook.Async.{Settled, read, pure}
use clearbook.Async.Preserves.{
  Preserves, Preserves-pure, Preserves-bind, Preserves-then, Preserves-if,
}
use clearbook.Ranges.{Span, spans}
use clearbook.Db.{Db, FactRow, Discovery, insert_discovered, set_cursor, get_cursor}
use clearbook.Db.Pool
use clearbook.Db.Queries.{query-kept}
use clearbook.Watch.{
  Source, WatchConfig, Scan, Cache, LogEntry, ask, storing, find_indices, insert_row, counted,
  store_at, place, visit_parties, watched_parties, scan_entries, scan_range, save_cursor,
  scan_spans, start_of, scan,
}

pub record Keeps (P : Db → Type 0) : Type 0 where
  pub ask : (db : Db) → P db → P (Pool.asked_once db)
  pub insert : (d : Discovery) (db : Db) → P db → P (insert_discovered d db).1
  pub cursor : (key last : ℕ) (db : Db) → P db → P (set_cursor key last db)

unfoldable pub On : (Db → Type 0) → Scan → Type 0
On P s = P s.db

module _ (P : Db → Type 0) {A : Type 0} where
  On-ask : (answer : Settled Text A) → Preserves (On P) (ask answer)
  unfolding On
  On-ask answer = record { kept = λ s h. h }

module _ (P : Db → Type 0) (source : Source) (config : WatchConfig) (k : Keeps P) where
  On-insert_row : (d : Discovery) → Preserves (On P) (insert_row source config d)
  unfolding On
  On-insert_row d = record {
    kept = λ s h.
        let h' = k.ask s.db h in
        query-kept (Pool.always (insert_discovered d)) P s.db h' (k.insert d _ h');
  }

  On-save_cursor : (last : ℕ) → Preserves (On P) (save_cursor source config last)
  unfolding On
  On-save_cursor last = record {
    kept = λ s h.
        let h' = k.ask s.db h in
        let save : Db → Unit {0} × Db = λ db. (tt, set_cursor config.chain_key last db) in
        query-kept (Pool.always save) P s.db h' (k.cursor config.chain_key last _ h');
  }

  On-load_cursor : (key : ℕ) → Preserves (On P) (storing (Pool.get_cursor key))
  unfolding On
  On-load_cursor key = record {
    kept = λ s h. let h' = k.ask s.db h in query-kept (read (get_cursor key)) P s.db h' h';
  }

  On-counted : (row : Option FactRow) → Preserves (On P) (counted source config row)
  unfolding On
  On-counted none = record { kept = λ s h. h }
  On-counted (some row) = record { kept = λ s h. h }

  On-find_indices :
      (hash : Text) (cache : Cache) (known : Option (List ℕ))
      → Preserves (On P) (find_indices source config hash cache known)
  On-find_indices hash cache (some indices) = Preserves-pure _
  On-find_indices hash cache none =
      Preserves-bind _ _ (On-ask P (source.receipt hash)) (λ receipt. Preserves-pure _)

  On-store_at :
      (entry : LogEntry) (parties : Text × Text) (at : Option ℕ)
      → Preserves (On P) (store_at source config entry parties at)
  On-store_at entry parties none = Preserves-pure _
  On-store_at entry parties (some i) = Preserves-bind _ _ (On-insert_row _) On-counted

  On-visit_parties :
      (cache : Cache) (entry : LogEntry) (parties : Option (Text × Text))
      → Preserves (On P) (visit_parties source config cache entry parties)
  On-visit_parties cache entry none = Preserves-pure _
  On-visit_parties cache entry (some parties) =
      Preserves-bind _ _ (On-find_indices entry.transaction_hash cache _) (λ (cache', indices).
        Preserves-bind _ _ (On-store_at entry parties (place source config entry indices))
          (λ n. Preserves-pure _))

  On-scan_entries :
      (cache : Cache) (entries : List LogEntry)
      → Preserves (On P) (scan_entries source config cache entries)
  unfolding scan_entries
  On-scan_entries cache [] = Preserves-pure 0
  On-scan_entries cache (entry ∷ rest) =
      Preserves-bind _ _
        (On-visit_parties cache entry (watched_parties source config entry.bytes entry.topics))
        (λ (cache', n).
          Preserves-bind _ _ (On-scan_entries cache' rest) (λ more. Preserves-pure (n + more)))

  On-scan_range : (span : Span) → Preserves (On P) (scan_range source config span)
  unfolding scan_range
  On-scan_range span =
      Preserves-bind _ _ (On-ask P (source.logs span.first span.last))
        (λ entries. On-scan_entries [] entries)

  On-scan_spans : (l : List Span) → Preserves (On P) (scan_spans source config l)
  unfolding scan_spans
  On-scan_spans [] = Preserves-pure 0
  On-scan_spans (span ∷ rest) = Preserves-bind _ _ (On-scan_range span) (λ n.
      Preserves-then _ _ (On-save_cursor span.last)
        (Preserves-bind _ _ (On-scan_spans rest) (λ more. Preserves-pure (n + more))))

  -- Wherever a scan stops or throws, the property is kept.
  pub On-scan : (attested_height : ℕ) → Preserves (On P) (scan source config attested_height)
  unfolding scan
  On-scan attested_height = Preserves-bind _ _ (On-load_cursor config.chain_key) (λ cursor.
      let start = start_of source config cursor attested_height in
      let ranges = spans (or_else config.batch_size 500) start attested_height in
      Preserves-if (ltb attested_height start) (pure 0) (scan_spans source config ranges)
        (λ _. Preserves-pure 0) (λ _. On-scan_spans ranges))
