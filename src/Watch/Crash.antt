-- ===== src/Watch/Crash.antt =====
-- A scan that stops anywhere: what the cursor has passed.
use mathlib.Core.Path.{subst}
use clearbook.Prelude.{
  ℕ, zero, suc, ◌+◌, ◌-◌, ◌≤◌, ◌<◌, ◌≡◌, refl, sym, ap, ◌∙◌, some, or_else, List, [], ◌∷◌, ◌++◌,
  arith, ltb, ◌==◌, All, Bool-cases, inl, inr,
}
use clearbook.Text.{Text}
use clearbook.Async.{Exec, Settled, resolved, rejected, pure, after, ◌>>=◌, ◌>>◌}
use clearbook.Ranges.{Span}
use clearbook.Ranges.Cover.{Tiles, spans-Tiles, in_span, blocks_from}
use clearbook.Db.{Db, get_cursor, set_cursor, lookup_cursor, upsert_cursor}
use clearbook.Db.Pool
use clearbook.Db.Queries.{query-kept, query-read}
use clearbook.Watch.{
  Source, WatchConfig, Scan, LogEntry, save_cursor, scan_range, scan_spans, start_of, scan,
}
use clearbook.Watch.Growth.{Grows}
use clearbook.Watch.Finds.{IsHandled, All-IsHandled-Grows, range-Finds}

pub lookup-upsert :
    (key last : ℕ) (l : List (ℕ × ℕ)) → lookup_cursor key (upsert_cursor key last l) ≡ some last
lookup-upsert key last [] = ground arith
lookup-upsert key last ((k, b) ∷ l) = ground (arith, lookup-upsert key last l)

All-append_right :
    {A : Type 0} (P : A → Type 0) (xs ys : List A) → All P (xs ++ ys) → All P xs × All P ys
All-append_right P [] ys h = (tt, h)
All-append_right P (x ∷ xs) ys h = let r = All-append_right P xs ys h.1 in ((h.0, r.0), r.1)

All-blocks :
    {A : Type 0} (P : A → Type 0) (chain : ℕ → List A) (first n b : ℕ)
    → All P (blocks_from chain first n)
    → first ≤ b
    → b < first + n
    → All P (chain b)
All-blocks P chain first zero b h l u = absurd (omega arith)
All-blocks P chain first (suc n) b h l u =
    let r = All-append_right P (chain first) (blocks_from chain (first + 1) n) h in
    elim (Bool-cases (b == first)) [
      | inl same ↦ let e : first ≡ b = ground arith in subst (λ x. All P (chain x)) e r.0
      | inr later ↦ All-blocks P chain (first + 1) n b r.1 (ground arith) (omega arith)
    ]

module _ (source : Source) (config : WatchConfig) (chain : ℕ → List LogEntry)
    (answers : (a b : ℕ) (es : List LogEntry)
      → source.logs a b ≡ resolved es
      → es ≡ in_span chain a b) where
  -- Every log from block `first` up to but not including `next` is handled.
  abbrev pub StoredBelow : ℕ → ℕ → Scan → Type 0
  StoredBelow first next s =
      (b : ℕ) → first ≤ b → b < next → All (IsHandled source config s) (chain b)

  -- Every log up to the cursor is handled.
  abbrev pub IsCaughtUp : ℕ → Scan → Type 0
  IsCaughtUp first s =
      (cursor : ℕ)
      → get_cursor config.chain_key s.db ≡ some cursor
      → StoredBelow first (cursor + 1) s

  StoredBelow-Grows :
      (first next : ℕ) (s s' : Scan)
      → Grows s s'
      → StoredBelow first next s
      → StoredBelow first next s'
  StoredBelow-Grows first next s s' g h =
      λ b l u. All-IsHandled-Grows source config s s' (chain b) g (h b l u)

  range-IsCaughtUp :
      (first : ℕ) (span : Span) (s : Scan)
      → IsCaughtUp first s
      → IsCaughtUp first (scan_range source config span s).1
  unfolding get_cursor
  range-IsCaughtUp first span s h = λ cursor e.
      let p = range-Finds source config span in
      StoredBelow-Grows first (cursor + 1) s (scan_range source config span s).1 (p.grows s)
        (h cursor (ap (lookup_cursor config.chain_key) (sym (p.cursors s)) ∙ e))

  range-StoredBelow :
      (first : ℕ) (span : Span) (s : Scan) (n : ℕ)
      → span.first ≤ span.last
      → StoredBelow first span.first s
      → (scan_range source config span s).0 ≡ resolved n
      → StoredBelow first (span.last + 1) (scan_range source config span s).1
  range-StoredBelow first span s n o h e = λ b l u.
      let p = range-Finds source config span in
      let (es, q, all) = p.found s n e in
      elim (Bool-cases (ltb b span.first)) [
        | inl old ↦
            StoredBelow-Grows first span.first s (scan_range source config span s).1 (p.grows s) h b
              l (ground arith)
        | inr fresh ↦
            All-blocks (IsHandled source config (scan_range source config span s).1) chain
              span.first (span.last + 1 - span.first) b
              (subst (All (IsHandled source config (scan_range source config span s).1))
                (answers span.first span.last es q) all)
              (ground arith) (ground arith)
      ]

  -- The statement that saves the cursor, as a query.
  abbrev saving : ℕ → Exec Text Db (Unit {0})
  saving last = Pool.always (λ db. (tt, set_cursor config.chain_key last db))

  saved-IsCaughtUp :
      (first last : ℕ) (t : Scan)
      → IsCaughtUp first t
      → StoredBelow first (last + 1) t
      → IsCaughtUp first (save_cursor source config last t).1
  unfolding get_cursor set_cursor
  saved-IsCaughtUp first last t k h =
      query-kept (saving last) (λ db. IsCaughtUp first (record t { db = db })) t.db k
        (λ cursor e.
          let at = lookup-upsert config.chain_key last t.db.scan_cursor in
          let same : last ≡ cursor = cc in subst (λ c. StoredBelow first (c + 1) t) same h)

  saved-StoredBelow :
      (first next last : ℕ) (t : Scan)
      → StoredBelow first next t
      → StoredBelow first next (save_cursor source config last t).1
  unfolding set_cursor
  saved-StoredBelow first next last t h =
      query-kept (saving last) (λ db. StoredBelow first next (record t { db = db })) t.db h h

  -- Adding up the counts changes no state.
  summed :
      (n : ℕ) (first : ℕ) (r : Settled Text ℕ) (t : Scan)
      → IsCaughtUp first t
      → IsCaughtUp first (after {S = Scan} (λ more. pure (n + more)) r t).1
  summed n first (resolved more) t h = h
  summed n first (rejected e) t h = h

  -- After the cursor is saved, or was not: the other ranges follow, or do not.
  continued-IsCaughtUp :
      (n first last : ℕ) (l : List Span) (r : Settled Text (Unit {0})) (v : Scan)
      → IsCaughtUp first v
      → IsCaughtUp first (scan_spans source config l v).1
      → IsCaughtUp first
          (after {S = Scan} (λ _. scan_spans source config l >>= λ more. pure (n + more)) r v).1
  continued-IsCaughtUp n first last l (resolved u) v h k =
      summed n first (scan_spans source config l v).0 (scan_spans source config l v).1 k
  continued-IsCaughtUp n first last l (rejected e) v h k = h

  -- After one range: the cursor is saved if the range was scanned, and the other ranges follow.
  followed-IsCaughtUp :
      (first last : ℕ) (l : List Span) (r : Settled Text ℕ) (u : Scan)
      → ((v : Scan)
          → IsCaughtUp first v
          → StoredBelow first (last + 1) v
          → IsCaughtUp first (scan_spans source config l v).1)
      → IsCaughtUp first u
      → ((n : ℕ) → r ≡ resolved n → StoredBelow first (last + 1) u)
      → IsCaughtUp first
          (after
            (λ n.
              save_cursor source config last
              >> (scan_spans source config l >>= λ more. pure (n + more)))
            r
            u).1
  followed-IsCaughtUp first last l (rejected e) u rest k q = k
  followed-IsCaughtUp first last l (resolved n) u rest k q =
      let v = (save_cursor source config last u).1 in
      let saved = saved-IsCaughtUp first last u k (q n refl) in
      continued-IsCaughtUp n first last l (save_cursor source config last u).0 v saved
        (rest v saved (saved-StoredBelow first (last + 1) last u (q n refl)))

  spans-IsCaughtUp :
      (first chunk start last : ℕ) (l : List Span) (s : Scan)
      → Tiles chunk start last l
      → IsCaughtUp first s
      → StoredBelow first start s
      → IsCaughtUp first (scan_spans source config l s).1
  unfolding scan_spans
  spans-IsCaughtUp first chunk start last [] s t c h = c
  spans-IsCaughtUp first chunk start last (span ∷ l) s t c h =
      followed-IsCaughtUp first span.last l (scan_range source config span s).0
        (scan_range source config span s).1
        (λ v k q. spans-IsCaughtUp first chunk (span.last + 1) last l v t.4 k q)
        (range-IsCaughtUp first span s c)
        (λ n e. range-StoredBelow first span s n (omega (arith, t.0, t.1)) (rw t.0 h) e)

  -- With a batch of at least one block, and log queries that bring back what stands in their blocks or
  -- throw: if every log from a block up to the cursor is handled, and those below the start of the scan
  -- are, then the same holds of the cursor after the scan, wherever the scan stopped, and whichever query
  -- of the chain or of the store threw. A log is handled if it is not one of a watched address, or if
  -- the query for its receipt was answered and, where the receipt is there, succeeded and has the log, a
  -- row with its key is in the store.
  pub scan-IsCaughtUp :
      (first attested_height : ℕ) (s : Scan)
      → 0 < or_else config.batch_size 500
      → IsCaughtUp first s
      → StoredBelow first
          (start_of source config (get_cursor config.chain_key s.db) attested_height)
          s
      → IsCaughtUp first (scan source config attested_height s).1
  unfolding scan get_cursor
  scan-IsCaughtUp first attested_height s o c h =
      let start = start_of source config (get_cursor config.chain_key s.db) attested_height in
      elim (query-read (get_cursor config.chain_key) s.db) [
        | inl (e, fails) ↦ rw fails c
        | inr found ↦ rw found (elim (Bool-cases (ltb attested_height start)) [
          | inl ahead ↦ rw ahead c
          | inr behind ↦ rw behind (
              spans-IsCaughtUp first (or_else config.batch_size 500) start attested_height _
                (record s { db = Pool.asked_once s.db })
                (spans-Tiles (or_else config.batch_size 500) start attested_height o) c h)
        ])
      ]
