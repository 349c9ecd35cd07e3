-- ===== src/Coverage/Counts.antt =====
-- What a measurement counts, against a class for each log that does not depend on the order of the loop
-- or on the cache of receipts.
use mathlib.Core.Path.{subst}
use clearbook.Prelude.{
  ℕ, ◌+◌, ◌≡◌, refl, sym, ◌∙◌, Bool, Option, none, some, List, [], ◌∷◌, ◌++◌, arith, if◌then◌else◌,
  Bool-cases, inl, inr,
}
use clearbook.Text.{Text, to_lower_case, text_eq, text_eq_iff}
use clearbook.Text.Assoc.{Assoc, TextSet, lookup, lookup-insert, insert, has}
use clearbook.Async.{Settled, resolved, pure, ◌>>=◌, ◌>>◌, for_each}
use clearbook.Ranges.{Span}
use clearbook.Ranges.Cover.{in_span}
use clearbook.Coverage.{
  CoverageScope, TransferLog, SourceReceipt, Sources, Tally, Measure, index_of, indices_of, qualify,
  fetch_indices, ask_vault, classify_fact, count_located, count_entry,
}
use clearbook.Coverage.Classes.{
  Class, is_qualifying, is_committed, is_vaulted, is_unvaulted, is_reverted, how_many,
  how_many-append, flat, in_vault, VaultHolds, committed, vaulted, unvaulted, reverted, absent,
}

module _ (sources : Sources) (scope : CoverageScope) (committed_fact_ids : TextSet)
    (receipts : Text → SourceReceipt) (holds : Text → Bool) where
  abbrev pub class_of_fact : Text → Class
  class_of_fact id =
      if has (to_lower_case id) committed_fact_ids
      then committed
      else if in_vault sources.vault holds id
      then vaulted
      else unvaulted

  abbrev pub class_at : TransferLog → Option ℕ → Class
  class_at entry none = absent
  class_at entry (some i) =
      class_of_fact (sources.identity scope.chain_key entry.block_number entry.transaction_index i)

  abbrev pub class_in : TransferLog → Option (List ℕ) → Class
  class_in entry none = reverted
  class_in entry (some indices) = class_at entry (index_of entry.log_index indices)

  abbrev pub class_of : TransferLog → Class
  class_of entry = class_in entry (indices_of (receipts entry.transaction_hash))

  -- The cache has what the receipts say.
  abbrev pub IsTrue : Tally → Type 0
  IsTrue t =
      (hash : Text) (o : Option (List ℕ))
      → lookup hash t.receipt_cache ≡ some o
      → indices_of (receipts hash) ≡ o

  insert-IsTrue :
      (hash : Text) (t : Tally)
      → IsTrue t
      → IsTrue
          (record t { receipt_cache = insert hash (indices_of (receipts hash)) t.receipt_cache })
  insert-IsTrue hash t h = λ other o found.
      let at = lookup-insert hash other (indices_of (receipts hash)) t.receipt_cache in
      elim (Bool-cases (text_eq hash other)) [
        | inl same ↦
            let one : lookup other (insert hash (indices_of (receipts hash)) t.receipt_cache)
                ≡ some (indices_of (receipts hash)) =
              at ∙ rw same refl in
            cc ((text_eq_iff hash other).0 same, one, found)
        | inr differs ↦ h other o (sym (at ∙ rw differs refl) ∙ found)
      ]

  -- A tally with one more log, of a class.
  abbrev one_more : Bool → ℕ → ℕ
  one_more b n = if b then n + 1 else n

  abbrev counted_as : Class → Tally → Tally
  counted_as k t = record t {
    qualifying = one_more (is_qualifying k) t.qualifying;
    committed = one_more (is_committed k) t.committed;
    verified_not_committed = one_more (is_vaulted k) t.verified_not_committed;
    unverified = one_more (is_unvaulted k) t.unverified;
    reverted_skipped = one_more (is_reverted k) t.reverted_skipped;
  }

  pub record Added (ks : List Class) (t t' : Tally) : Type 0 where
    pub cache : IsTrue t'
    pub qualifying : t'.qualifying ≡ t.qualifying + how_many is_qualifying ks
    pub committed : t'.committed ≡ t.committed + how_many is_committed ks
    pub vaulted : t'.verified_not_committed ≡ t.verified_not_committed + how_many is_vaulted ks
    pub unvaulted : t'.unverified ≡ t.unverified + how_many is_unvaulted ks
    pub reverted : t'.reverted_skipped ≡ t.reverted_skipped + how_many is_reverted ks

  more : (p : Class → Bool) (k : Class) (n : ℕ) → one_more (p k) n ≡ n + how_many p (k ∷ [])
  more p k n = ground arith

  Added-counted :
      (k : Class) (t : Tally) (cache : Assoc (Option (List ℕ)))
      → IsTrue (record t { receipt_cache = cache })
      → Added (k ∷ []) t (counted_as k (record t { receipt_cache = cache }))
  Added-counted k t cache h = record {
    cache = h;
    qualifying = more is_qualifying k t.qualifying;
    committed = more is_committed k t.committed;
    vaulted = more is_vaulted k t.verified_not_committed;
    unvaulted = more is_unvaulted k t.unverified;
    reverted = more is_reverted k t.reverted_skipped;
  }

  -- A method that returns and counts these classes.
  pub record Adds (ks : List Class) (m : Measure (Unit {0})) : Type 0 where
    pub adds : (t : Tally) → IsTrue t → ((m t).0 ≡ resolved tt) × Added ks t (m t).1

  Adds-nothing : Adds [] (pure tt)
  Adds-nothing = record {
    adds = λ t h. (
      refl,
      record {
        cache = h;
        qualifying = omega arith;
        committed = omega arith;
        vaulted = omega arith;
        unvaulted = omega arith;
        reverted = omega arith;
      },
    );
  }

  Added-trans :
      (ks ls : List Class) (t u v : Tally) → Added ks t u → Added ls u v → Added (ks ++ ls) t v
  Added-trans ks ls t u v a b = record {
    cache = b.cache;
    qualifying = omega (arith, a.qualifying, b.qualifying, how_many-append is_qualifying ks ls);
    committed = omega (arith, a.committed, b.committed, how_many-append is_committed ks ls);
    vaulted = omega (arith, a.vaulted, b.vaulted, how_many-append is_vaulted ks ls);
    unvaulted = omega (arith, a.unvaulted, b.unvaulted, how_many-append is_unvaulted ks ls);
    reverted = omega (arith, a.reverted, b.reverted, how_many-append is_reverted ks ls);
  }

  Adds-then :
      (ks ls : List Class) (m n : Measure (Unit {0}))
      → Adds ks m
      → Adds ls n
      → Adds (ks ++ ls) (m >> n)
  Adds-then ks ls m n p q = record {
    adds = λ t h.
        let (r, a) = p.adds t h in
        let (r', b) = q.adds (m t).1 a.cache in
        rw r (r', Added-trans ks ls t (m t).1 (n (m t).1).1 a b);
  }

  pub Adds-for_each :
      {A : Type 0} (f : A → List Class) (body : A → Measure (Unit {0})) (xs : List A)
      → ((x : A) → Adds (f x) (body x))
      → Adds (flat f xs) (for_each body xs)
  Adds-for_each f body [] k = Adds-nothing
  Adds-for_each f body (x ∷ xs) k =
      Adds-then (f x) (flat f xs) (body x) (for_each body xs) (k x) (Adds-for_each f body xs k)

  -- The logs of the window of the measurement, as the chain has them.
  module _ (chain : Text → Text → ℕ → List TransferLog)
      (log_answers : (token address : Text) (span : Span)
        → sources.transfers token address span
          ≡ resolved (in_span (chain token address) span.first span.last))
      (receipt_answers : (hash : Text) → sources.receipt_of hash ≡ resolved (receipts hash))
      (vault_answers : VaultHolds sources.vault holds) where
    vault-counts :
        (id : Text) (vault : Option (Text → Settled Text Bool)) (t : Tally)
        → VaultHolds vault holds
        → ask_vault sources scope committed_fact_ids id vault (qualify t)
          ≡ (resolved tt, counted_as (if in_vault vault holds id then vaulted else unvaulted) t)
    vault-counts id none t answers = refl
    vault-counts id (some vault_exists) t answers = rw (answers id) (elim (Bool-cases (holds id)) [
      | inl stored ↦ rw stored refl
      | inr missing ↦ rw missing refl
    ])

    fact-counts :
        (id : Text) (t : Tally)
        → classify_fact sources scope committed_fact_ids id (qualify t)
          ≡ (resolved tt, counted_as (class_of_fact id) t)
    fact-counts id t = elim (Bool-cases (has (to_lower_case id) committed_fact_ids)) [
      | inl cited ↦ rw cited refl
      | inr free ↦ rw free (vault-counts id sources.vault t vault_answers)
    ]

    located-counts :
        (entry : TransferLog) (i : Option ℕ) (t : Tally)
        → count_located sources scope committed_fact_ids entry i t
          ≡ (resolved tt, counted_as (class_at entry i) t)
    located-counts entry none t = refl
    located-counts entry (some i) t = fact-counts _ t

    entry-counts :
        (entry : TransferLog) (o : Option (List ℕ)) (t : Tally)
        → count_entry sources scope committed_fact_ids entry o t
          ≡ (resolved tt, counted_as (class_in entry o) t)
    entry-counts entry none t = refl
    entry-counts entry (some indices) t = located-counts entry (index_of entry.log_index indices) t

    -- One log is counted as its class, whether its receipt was in the cache or had to be asked for.
    counted-Added :
        (entry : TransferLog) (o : Option (List ℕ)) (t u : Tally)
        → indices_of (receipts entry.transaction_hash) ≡ o
        → IsTrue u
        → u ≡ record t { receipt_cache = u.receipt_cache }
        → ((count_entry sources scope committed_fact_ids entry o u).0 ≡ resolved tt)
          × Added (class_of entry ∷ []) t (count_entry sources scope committed_fact_ids entry o u).1
    counted-Added entry o t u at h same =
        rw (entry-counts entry o u, at)
          (
            refl,
            subst (λ x. Added (class_in entry o ∷ []) t (counted_as (class_in entry o) x))
                (sym same) (Added-counted (class_in entry o) t u.receipt_cache h),
          )

    pub looked_up-Adds :
        (entry : TransferLog) (cached : Option (Option (List ℕ))) (t : Tally)
        → lookup entry.transaction_hash t.receipt_cache ≡ cached
        → IsTrue t
        → ((fetch_indices sources scope committed_fact_ids entry.transaction_hash cached
                >>= count_entry sources scope committed_fact_ids entry)
              t).0
            ≡ resolved tt
          × Added
              (class_of entry ∷ [])
              t
              ((fetch_indices sources scope committed_fact_ids entry.transaction_hash cached
                  >>= count_entry sources scope committed_fact_ids entry)
                t).1
    looked_up-Adds entry (some o) t found h =
        counted-Added entry o t t (h entry.transaction_hash o found) h refl
    looked_up-Adds entry none t found h =
        let hash = entry.transaction_hash in
        let o = indices_of (receipts hash) in
        rw (receipt_answers hash) (
          counted-Added entry o t (record t { receipt_cache = insert hash o t.receipt_cache }) refl
            (insert-IsTrue hash t h) refl)
