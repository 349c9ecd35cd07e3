-- ===== src/Watch/Growth.antt =====
-- Methods of the watcher that keep the rows and the cursors of the store.
use mathlib.Core.Path.{subst}
use clearbook.Prelude.{ℕ, ◌≡◌, refl, ◌∙◌, true, some, [], ◌∷◌, arith, exists, Bool-cases, inl, inr}
use clearbook.Text.{Text}
use clearbook.Async.{Settled, resolved, rejected, Exec, pure, after, ◌>>=◌}
use clearbook.Db.{Db, Discovery, row_of, same_key, insert_discovered}
use clearbook.Db.Insert.{exists-append, exists-row_of, same_key_self}
use clearbook.Watch.{Scan, ask}

-- A row with the key of the discovery is in the store.
abbrev pub Has : Discovery → Db → Type 0
Has d db = exists (same_key (row_of 0 d)) db.facts ≡ true

pub insert-Has :
    (d : Discovery) (db : Db) (i : ℕ) → d.tx_index ≡ some i → Has d (insert_discovered d db).1
unfolding insert_discovered
insert-Has d db i e = elim (Bool-cases (exists (same_key (row_of db.next_id d)) db.facts)) [
  | inl known ↦ rw known (exists-row_of 0 db.next_id d db.facts ∙ known)
  | inr new ↦
      rw
        (
          new,
          exists-append (same_key (row_of 0 d)) db.facts (row_of db.next_id d ∷ []),
          same_key_self 0 db.next_id i d e,
        )
        (ground arith)
]

pub insert-Has_other : (d o : Discovery) (db : Db) → Has o db → Has o (insert_discovered d db).1
unfolding insert_discovered
insert-Has_other d o db h = elim (Bool-cases (exists (same_key (row_of db.next_id d)) db.facts)) [
  | inl known ↦ rw known h
  | inr new ↦
      rw (new, exists-append (same_key (row_of 0 o)) db.facts (row_of db.next_id d ∷ []), h) refl
]

pub insert-cursors :
    (d : Discovery) (db : Db) → (insert_discovered d db).1.scan_cursor ≡ db.scan_cursor
unfolding insert_discovered
insert-cursors d db = ground arith

-- The rows that are there stay.
abbrev pub Grows : Scan → Scan → Type 0
Grows s s' = (d : Discovery) → Has d s.db → Has d s'.db

-- A method that keeps the rows and the cursors, and where it returns has reached `Q`.
pub record Finds {A : Type 0} (Q : A → Scan → Type 0) (m : Exec Text Scan A) : Type 0 where
  pub grows : (s : Scan) → Grows s (m s).1
  pub cursors : (s : Scan) → (m s).1.db.scan_cursor ≡ s.db.scan_cursor
  pub found : (s : Scan) (a : A) → (m s).0 ≡ resolved a → Q a (m s).1

pub Finds-pure :
    {A : Type 0} (Q : A → Scan → Type 0) (a : A) → ((s : Scan) → Q a s) → Finds Q (pure a)
Finds-pure Q a h = record {
  grows = λ s d k. k;
  cursors = λ s. refl;
  found = λ s b e. let same : a ≡ b = cc in subst (λ x. Q x s) same (h s);
}

pub Finds-ask : {A : Type 0} (r : Settled Text A) → Finds (λ a s. r ≡ resolved a) (ask r)
Finds-ask r = record { grows = λ s d k. k; cursors = λ s. refl; found = λ s a e. e }

module _ {A B : Type 0} {R : B → Scan → Type 0} where
  pub followed-Grows :
      (f : A → Exec Text Scan B) (r : Settled Text A) (s : Scan)
      → ((a : A) → r ≡ resolved a → Finds R (f a))
      → Grows s (after f r s).1
  followed-Grows f (resolved a) s k = (k a refl).grows s
  followed-Grows f (rejected x) s k = λ d h. h

  pub followed-cursors :
      (f : A → Exec Text Scan B) (r : Settled Text A) (s : Scan)
      → ((a : A) → r ≡ resolved a → Finds R (f a))
      → (after f r s).1.db.scan_cursor ≡ s.db.scan_cursor
  followed-cursors f (resolved a) s k = (k a refl).cursors s
  followed-cursors f (rejected x) s k = refl

  pub followed :
      (Q : A → Scan → Type 0) (R' : B → Scan → Type 0) (f : A → Exec Text Scan B)
      (r : Settled Text A) (t : Scan) (b : B)
      → ((a : A) → r ≡ resolved a → Q a t)
      → ((a : A) → Q a t → Finds R' (f a))
      → ((a : A) (b : B) (t' : Scan) → Q a t → Grows t t' → R' b t' → R b t')
      → (after f r t).0 ≡ resolved b
      → R b (after f r t).1
  followed Q R' f (resolved a) t b q k join e =
      let next = k a (q a refl) in join a b _ (q a refl) (next.grows t) (next.found t b e)
  followed Q R' f (rejected x) t b q k join e = cc

module _ {A B : Type 0} where
  -- What the first method reached may be used of the second, and at the end with the rows that were
  -- there in between.
  pub Finds-bind :
      (Q : A → Scan → Type 0) (R' R : B → Scan → Type 0) (m : Exec Text Scan A)
      (f : A → Exec Text Scan B)
      → Finds Q m
      → ((a : A) (t : Scan) → Q a t → Finds R' (f a))
      → ((a : A) (b : B) (t t' : Scan) → Q a t → Grows t t' → R' b t' → R b t')
      → Finds R (m >>= f)
  Finds-bind Q R' R m f p k join = record {
    grows = λ s d h.
        followed-Grows f (m s).0 (m s).1 (λ a e. k a (m s).1 (p.found s a e)) d (p.grows s d h);
    cursors =
        λ s. followed-cursors f (m s).0 (m s).1 (λ a e. k a (m s).1 (p.found s a e)) ∙ p.cursors s;
    found = λ s b e.
        followed {R = R} Q R' f (m s).0 (m s).1 b (λ a r. p.found s a r) (λ a. k a (m s).1)
          (λ a b' t' q. join a b' (m s).1 t' q) e;
  }
