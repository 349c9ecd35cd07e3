-- ===== src/Watch/Finds.antt =====
-- What the visits to the logs of a range leave in the store.
use mathlib.Core.Path.{subst}
use clearbook.Prelude.{
  ℕ, ◌≡◌, refl, sym, ap, ◌∙◌, Option, none, some, List, [], ◌∷◌, All, All-imp, Bool-cases, inl, inr,
}
use clearbook.Text.{Text, text_eq, text_eq_iff}
use clearbook.Text.Assoc.{lookup, insert, lookup-insert}
use clearbook.Async.{Settled, resolved, rejected}
use clearbook.Async.Returns.{Resolves}
use clearbook.Ranges.{Span}
use clearbook.Db.{FactRow, Discovery, insert_discovered}
use clearbook.Db.Pool
use clearbook.Db.Queries.{query-kept, query-resolved}
use clearbook.Watch.{
  Source, WatchConfig, Scan, LogEntry, LogReceipt, Cache, indices_in, watched_parties, keep_indices,
  find_indices, discovery_of, insert_row, counted, place, store_at, visit_parties, scan_entries,
  scan_range,
}
use clearbook.Watch.Growth.{
  Has, insert-Has, insert-Has_other, insert-cursors, Grows, Finds, Finds-pure, Finds-ask,
  Finds-bind,
}

module _ (source : Source) (config : WatchConfig) where
  -- The indices of the logs of a transaction that is on the chain and succeeded.
  abbrev pub indices_on_chain : Settled Text (Option LogReceipt) → Option (List ℕ)
  indices_on_chain (resolved receipt) = indices_in receipt
  indices_on_chain (rejected e) = none

  -- What the watcher is to store for a log, if anything.
  abbrev pub wanted_at : LogEntry → Text × Text → Option ℕ → Option Discovery
  wanted_at entry parties none = none
  wanted_at entry parties (some local_index) =
      some (discovery_of source config entry parties local_index)

  abbrev pub wanted_of : LogEntry → Option (Text × Text) → Option Discovery
  wanted_of entry none = none
  wanted_of entry (some parties) =
      wanted_at entry parties
        (place source config entry (indices_on_chain (source.receipt entry.transaction_hash)))

  abbrev pub wanted : LogEntry → Option Discovery
  wanted entry = wanted_of entry (watched_parties source config entry.bytes entry.topics)

  abbrev pub Stored : Scan → Option Discovery → Type 0
  Stored s none = Unit
  Stored s (some d) = Has d s.db

  Stored-Grows : (s s' : Scan) (o : Option Discovery) → Grows s s' → Stored s o → Stored s' o
  Stored-Grows s s' none g h = tt
  Stored-Grows s s' (some d) g h = g d h

  -- The query for the receipt that decides on a watched log was answered.
  abbrev pub IsRead : LogEntry → Option (Text × Text) → Type 0
  IsRead entry none = Unit
  IsRead entry (some parties) = Resolves (source.receipt entry.transaction_hash)

  -- A log that is done with: it was not decided on by a failure, and it has its row if it is wanted.
  abbrev pub IsHandled : Scan → LogEntry → Type 0
  IsHandled s entry =
      Stored s (wanted entry)
      × IsRead entry (watched_parties source config entry.bytes entry.topics)

  pub All-IsHandled-Grows :
      (s s' : Scan) (es : List LogEntry) → Grows s s' → All (IsHandled s) es → All (IsHandled s') es
  All-IsHandled-Grows s s' es g h =
      All-imp _ _ es (λ e (k, read). (Stored-Grows s s' (wanted e) g k, read)) h

  on_chain-Resolves :
      (r : Settled Text (Option LogReceipt)) (indices : List ℕ)
      → indices_on_chain r ≡ some indices
      → Resolves r
  on_chain-Resolves (resolved receipt) indices h = (receipt, refl)
  on_chain-Resolves (rejected e) indices h = cc

  -- What the cache has of a transaction is what is on the chain.
  abbrev IsTrue : Cache → Type 0
  IsTrue cache =
      (hash : Text) (indices : List ℕ)
      → lookup hash cache ≡ some indices
      → indices_on_chain (source.receipt hash) ≡ some indices

  keep-IsTrue :
      (hash : Text) (cache : Cache) (o : Option (List ℕ))
      → indices_on_chain (source.receipt hash) ≡ o
      → IsTrue cache
      → IsTrue (keep_indices source config hash cache o)
  keep-IsTrue hash cache none e t = t
  keep-IsTrue hash cache (some indices) e t = λ other found h.
      let at = lookup-insert hash other indices cache in
      elim (Bool-cases (text_eq hash other)) [
        | inl same ↦
            let one : lookup other (insert hash indices cache) ≡ some indices = at ∙ rw same in
            cc ((text_eq_iff hash other).0 same, e, one, h)
        | inr differs ↦
            let one : lookup other (insert hash indices cache) ≡ lookup other cache =
              at ∙ rw differs in
            t other found (sym one ∙ h)
      ]

  find-Finds :
      (hash : Text) (cache : Cache) (o : Option (List ℕ))
      → IsTrue cache
      → lookup hash cache ≡ o
      → Finds
          (λ r s.
            IsTrue r.0
            × (r.1 ≡ indices_on_chain (source.receipt hash))
            × Resolves (source.receipt hash))
          (find_indices source config hash cache o)
  find-Finds hash cache (some indices) t e =
      Finds-pure _ _
        (λ s. (t, sym (t hash indices e), on_chain-Resolves _ indices (t hash indices e)))
  find-Finds hash cache none t e =
      Finds-bind (λ r s. source.receipt hash ≡ resolved r) _ _ _ _ (Finds-ask (source.receipt hash))
        (λ receipt s h. Finds-pure _ _ (λ s'. (
          keep-IsTrue hash cache (indices_in receipt) (ap indices_on_chain h) t,
          sym (ap indices_on_chain h),
          (receipt, h),
        )))
        (λ receipt r s s' h g q. q)

  counted-Finds : (o : Option FactRow) → Finds (λ n s. Unit {0}) (counted source config o)
  counted-Finds none = Finds-pure _ _ (λ s. tt)
  counted-Finds (some row) = record { grows = λ s d h. h; cursors = λ s. refl; found = λ s n e. tt }

  insert-Finds :
      (d : Discovery) (i : ℕ)
      → d.tx_index ≡ some i
      → Finds (λ r s. Has d s.db) (insert_row source config d)
  insert-Finds d i e =
      let insert = Pool.always (insert_discovered d) in
      record {
        grows = λ s o h.
            query-kept insert (Has o) s.db h (insert-Has_other d o (Pool.asked_once s.db) h);
        cursors = λ s.
            query-kept insert (λ db. db.scan_cursor ≡ s.db.scan_cursor) s.db refl
              (insert-cursors d (Pool.asked_once s.db));
        found = λ s r h.
            let (done, same) = query-resolved insert s.db r h in
            subst (Has d) (sym same) (insert-Has d (Pool.asked_once s.db) i e);
      }

  store-Finds :
      (entry : LogEntry) (parties : Text × Text) (o : Option ℕ)
      → Finds (λ n s. Stored s (wanted_at entry parties o)) (store_at source config entry parties o)
  store-Finds entry parties none = Finds-pure _ _ (λ s. tt)
  store-Finds entry parties (some i) =
      let d = discovery_of source config entry parties i in
      Finds-bind (λ r s. Has d s.db) (λ n s. Unit {0}) _ _ _
        (insert-Finds d entry.transaction_index refl) (λ r s h. counted-Finds r)
        (λ r n s s' h g q. g d h)

  -- One log: the cache stays true, and the row is there if it was wanted.
  visit-Finds :
      (cache : Cache) (entry : LogEntry) (parties : Option (Text × Text))
      → IsTrue cache
      → Finds
          (λ r s. IsTrue r.0 × Stored s (wanted_of entry parties) × IsRead entry parties)
          (visit_parties source config cache entry parties)
  visit-Finds cache entry none t = Finds-pure _ _ (λ s. (t, tt, tt))
  visit-Finds cache entry (some parties) t =
      Finds-bind
        (λ r s.
          IsTrue r.0
          × (r.1 ≡ indices_on_chain (source.receipt entry.transaction_hash))
          × Resolves (source.receipt entry.transaction_hash))
        (λ r s.
          IsTrue r.0 × Stored s (wanted_of entry (some parties)) × IsRead entry (some parties))
        _ _ _ (find-Finds entry.transaction_hash cache (lookup entry.transaction_hash cache) t refl)
        (λ r s h.
          Finds-bind (λ n s. Stored s (wanted_at entry parties (place source config entry r.1)))
            (λ q s. IsTrue q.0) _ _ _ (store-Finds entry parties (place source config entry r.1))
            (λ n s k. Finds-pure _ _ (λ s'. h.0))
            (λ n q s s' k g i. (
              i,
              rw (ap (λ x. wanted_at entry parties (place source config entry x)) (sym h.1))
                  (Stored-Grows s s' _ g k),
              h.2,
            )))
        (λ r q s s' h g k. k)

  entries-Finds :
      (cache : Cache) (es : List LogEntry)
      → IsTrue cache
      → Finds (λ n s. All (IsHandled s) es) (scan_entries source config cache es)
  unfolding scan_entries
  entries-Finds cache [] t = Finds-pure _ _ (λ s. tt)
  entries-Finds cache (e ∷ es) t =
      Finds-bind
        (λ r s.
          IsTrue r.0
          × Stored s (wanted e)
          × IsRead e (watched_parties source config e.bytes e.topics))
        (λ n s. All (IsHandled s) es) _ _ _
        (visit-Finds cache e (watched_parties source config e.bytes e.topics) t)
        (λ r s h.
          Finds-bind (λ n s'. All (IsHandled s') es) (λ n s'. Unit {0}) _ _ _
            (entries-Finds r.0 es h.0) (λ n s' k. Finds-pure _ _ (λ s''. tt))
            (λ n m s' s'' k g u. All-IsHandled-Grows s' s'' es g k))
        (λ r n s s' h g k. ((Stored-Grows s s' (wanted e) g h.1, h.2), k))

  empty-IsTrue : IsTrue []
  unfolding lookup
  empty-IsTrue hash indices e = cc

  -- Where the scan of a range returns, every log of its query is handled.
  pub range-Finds :
      (span : Span)
      → Finds
          (λ n s.
            (es : List LogEntry) × (source.logs span.first span.last ≡ resolved es)
            × All (IsHandled s) es)
          (scan_range source config span)
  unfolding scan_range
  range-Finds span =
      Finds-bind (λ es s. source.logs span.first span.last ≡ resolved es)
        (λ n s.
          (es : List LogEntry) × (source.logs span.first span.last ≡ resolved es)
          × All (IsHandled s) es)
        _ _ _ (Finds-ask (source.logs span.first span.last))
        (λ es s h.
          let p = entries-Finds [] es empty-IsTrue in
          record { grows = p.grows; cursors = p.cursors; found = λ t n e. (es, h, p.found t n e) })
        (λ es n s s' h g k. k)
