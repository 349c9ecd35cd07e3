-- ===== src/Watch/Reaches.antt =====
-- A scan whose queries are answered returns, with the cursor at the attested height.
use clearbook.Prelude.{
  ℕ, ◌+◌, ◌≤◌, ◌<◌, ◌≡◌, ◌∙◌, ap, exists, Bool-cases, inl, inr, refl, true, false, Option, none,
  some, or_else, List, [], ◌∷◌, arith, ltb,
}
use clearbook.Text.{Text}
use clearbook.Text.Assoc.{lookup}
use clearbook.Async.{Settled, Exec}
use clearbook.Async.Leads.{Leads, Leads-pure, Leads-bind, Leads-then}
use clearbook.Async.Returns.{Resolves}
use clearbook.Async.Stays.{Stays, Stays-pure, Stays-if, Stays-bind, Stays-then}
use clearbook.Ranges.{Span, spans}
use clearbook.Ranges.Cover.{Tiles, spans-Tiles}
use clearbook.Db.{
  Db, FactRow, Discovery, row_of, same_key, insert_discovered, get_cursor, set_cursor,
  lookup_cursor,
}
use clearbook.Db.Pool
use clearbook.Db.Queries.{IsUp, query-resolved}
use clearbook.Watch.{
  Source, WatchConfig, Scan, LogEntry, Cache, ask, watched_parties, find_indices, counted,
  insert_row, storing, store_at, place, visit_parties, scan_entries, scan_range, save_cursor,
  scan_spans, start_of, scan,
}
use clearbook.Watch.Crash.{lookup-upsert}

-- Every query is answered.
abbrev pub Answering : Source → Type 0
Answering source =
    ((a b : ℕ) → Resolves (source.logs a b)) × ((hash : Text) → Resolves (source.receipt hash))

-- The pool of the store answers every query.
abbrev pub Up : Scan → Type 0
Up s = IsUp s.db

Stays-ask : {A : Type 0} (r : Settled Text A) → Resolves r → Stays Up (ask r)
Stays-ask r h = record { stays = λ s up. (h, up) }

module _ (source : Source) (config : WatchConfig) (answering : Answering source) where
  find-Stays :
      (hash : Text) (cache : Cache) (o : Option (List ℕ))
      → Stays Up (find_indices source config hash cache o)
  find-Stays hash cache (some indices) = Stays-pure _
  find-Stays hash cache none =
      Stays-bind _ _ (Stays-ask (source.receipt hash) (answering.1 hash)) (λ receipt. Stays-pure _)

  counted-Stays : (o : Option FactRow) → Stays Up (counted source config o)
  counted-Stays none = Stays-pure _
  counted-Stays (some row) = record { stays = λ s up. ((_, refl), up) }

  insert-Stays : (d : Discovery) → Stays Up (insert_row source config d)
  unfolding insert_discovered
  insert-Stays d = record {
    stays = λ s up.
        rw (up s.db.asked)
          (elim (Bool-cases (exists (same_key (row_of s.db.next_id d)) s.db.facts)) [
            | inl known ↦ rw known ((_, refl), up)
            | inr new ↦ rw new ((_, refl), up)
          ]);
  }

  store-Stays :
      (entry : LogEntry) (parties : Text × Text) (o : Option ℕ)
      → Stays Up (store_at source config entry parties o)
  store-Stays entry parties none = Stays-pure _
  store-Stays entry parties (some i) = Stays-bind _ _ (insert-Stays _) counted-Stays

  visit-Stays :
      (cache : Cache) (entry : LogEntry) (parties : Option (Text × Text))
      → Stays Up (visit_parties source config cache entry parties)
  visit-Stays cache entry none = Stays-pure _
  visit-Stays cache entry (some parties) =
      Stays-bind _ _ (find-Stays entry.transaction_hash cache (lookup entry.transaction_hash cache))
        (λ r.
          Stays-bind _ _ (store-Stays entry parties (place source config entry r.1))
            (λ n. Stays-pure _))

  entries-Stays :
      (cache : Cache) (es : List LogEntry) → Stays Up (scan_entries source config cache es)
  unfolding scan_entries
  entries-Stays cache [] = Stays-pure _
  entries-Stays cache (e ∷ es) =
      Stays-bind _ _ (visit-Stays cache e (watched_parties source config e.bytes e.topics))
        (λ r. Stays-bind _ _ (entries-Stays r.0 es) (λ more. Stays-pure _))

  save-Stays : (last : ℕ) → Stays Up (save_cursor source config last)
  unfolding set_cursor
  save-Stays last = record { stays = λ s up. rw (up s.db.asked) ((_, refl), up) }

  load-Stays : Stays Up (storing (Pool.get_cursor config.chain_key))
  load-Stays = record { stays = λ s up. rw (up s.db.asked) ((_, refl), up) }

  spans-Stays : (l : List Span) → Stays Up (scan_spans source config l)
  unfolding scan_spans scan_range
  spans-Stays [] = Stays-pure _
  spans-Stays (span ∷ l) =
      Stays-bind _ _
        (Stays-bind _ _
          (Stays-ask (source.logs span.first span.last) (answering.0 span.first span.last))
          (λ es. entries-Stays [] es))
        (λ n.
          Stays-then _ _ (save-Stays span.last)
            (Stays-bind _ _ (spans-Stays l) (λ more. Stays-pure _)))

  scan-Stays : (h : ℕ) → Stays Up (scan source config h)
  unfolding scan
  scan-Stays h = Stays-bind _ _ load-Stays (λ cursor.
      Stays-if (ltb h (start_of source config cursor h)) _ _ (Stays-pure 0) (spans-Stays _))

  abbrev Any : Scan → Type 0
  Any s = Unit

  abbrev IsAt : ℕ → Scan → Type 0
  IsAt c s = get_cursor config.chain_key s.db ≡ some c

  saved-IsAt : (last : ℕ) → Leads Any (IsAt last) (save_cursor source config last)
  unfolding get_cursor set_cursor
  saved-IsAt last = record {
    lead = λ s a h e.
        let save : Db → Unit {0} × Db = λ db. (tt, set_cursor config.chain_key last db) in
        let (done, same) = query-resolved (Pool.always save) s.db tt e in
        ap (λ (db : Db). lookup_cursor config.chain_key db.scan_cursor) same
        ∙ lookup-upsert config.chain_key last s.db.scan_cursor;
  }

  Leads-Any : {A : Type 0} (P : Scan → Type 0) (m : Exec Text Scan A) → Leads P Any m
  Leads-Any P m = record { lead = λ s a h e. tt }

  -- From the range that ends at `c`, the other ranges move the cursor to the last block.
  rest-IsAt :
      (chunk c last : ℕ) (l : List Span)
      → Tiles chunk (c + 1) last l
      → c ≤ last
      → Leads (IsAt c) (IsAt last) (scan_spans source config l)
  unfolding scan_spans
  rest-IsAt chunk c last [] t b =
      let same : c ≡ last = omega (arith, t) in record { lead = λ s a h e. rw⁻¹ same h }
  rest-IsAt chunk c last (span ∷ l) t b =
      Leads-bind (scan_range source config span) _
        (Leads-Any (IsAt c) (scan_range source config span))
        (λ n. Leads-then (save_cursor source config span.last) _ (saved-IsAt span.last) (
          Leads-bind (scan_spans source config l) _ (rest-IsAt chunk span.last last l t.4 t.2)
            (λ more. Leads-pure _)))

  spans-IsAt :
      (chunk start last : ℕ) (l : List Span)
      → Tiles chunk start last l
      → start ≤ last
      → Leads Any (IsAt last) (scan_spans source config l)
  unfolding scan_spans
  spans-IsAt chunk start last [] t b = absurd (omega (arith, t))
  spans-IsAt chunk start last (span ∷ l) t b =
      Leads-bind (scan_range source config span) _ (Leads-Any Any (scan_range source config span))
        (λ n. Leads-then (save_cursor source config span.last) _ (saved-IsAt span.last) (
          Leads-bind (scan_spans source config l) _ (rest-IsAt chunk span.last last l t.4 t.2)
            (λ more. Leads-pure _)))

  -- With a batch of at least one block, where every query of the source chain and of the store is
  -- answered, the scan returns; the cursor is then at the attested height, unless it was there or ahead
  -- before, when the scan has only asked for it.
  pub scan-IsAt :
      (h : ℕ) (s : Scan)
      → 0 < or_else config.batch_size 500
      → IsUp s.db
      → Resolves (scan source config h s).0
        × (start_of source config (get_cursor config.chain_key s.db) h ≤ h
            → get_cursor config.chain_key (scan source config h s).1.db ≡ some h)
        × (h < start_of source config (get_cursor config.chain_key s.db) h
            → (scan source config h s).1 ≡ record s { db = Pool.asked_once s.db })
  unfolding scan get_cursor
  scan-IsAt h s o up =
      let start = start_of source config (get_cursor config.chain_key s.db) h in
      let ranges = spans (or_else config.batch_size 500) start h in
      let found = record s { db = Pool.asked_once s.db } in
      let run = ((spans-Stays ranges).stays found up).0 in
      (
        ((scan-Stays h).stays s up).0,
        (λ b.
            let behind : ltb h start ≡ false = ground arith in
            rw (up s.db.asked, behind)
              ((spans-IsAt (or_else config.batch_size 500) start h ranges
                  (spans-Tiles (or_else config.batch_size 500) start h o) b).lead
                found run.0 tt run.1)),
        (λ b. let ahead : ltb h start ≡ true = ground arith in rw (up s.db.asked, ahead) refl),
      )
