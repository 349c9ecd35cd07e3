-- ===== src/Db/Insert.antt =====
-- What `insertDiscovered` does to the rows, and the keys that it keeps.
use clearbook.Prelude.{
  ℕ, ◌+◌, ◌≡◌, refl, ◌∙◌, Bool, true, false, ◌||◌, none, some, List, [], ◌∷◌, ◌++◌, arith, exists,
  All, All-imp, All-append, All-zip, exists-All, Bool-cases, inl, inr,
}
use clearbook.Db.{
  discovered, FactRow, Db, Discovery, row_of, conflicts, same_key, insert_discovered,
}
use clearbook.Db.Keys.{IsKeyed, insert-IsKeyed}
use clearbook.Db.Rows.{IsConsistent, conflicts_comm, conflicts_self}

pub exists-append :
    (p : FactRow → Bool) (xs ys : List FactRow) → exists p (xs ++ ys) ≡ (exists p xs || exists p ys)
exists-append p [] ys = refl
exists-append p (x ∷ xs) ys = ground (arith, exists-append p xs ys)

-- The key of a row does not depend on its identifier.
same_key-row_of :
    (n m : ℕ) (input : Discovery) (x : FactRow)
    → same_key (row_of n input) x ≡ same_key (row_of m input) x
unfolding same_key
same_key-row_of n m input x = refl

pub exists-row_of :
    (n m : ℕ) (input : Discovery) (rows : List FactRow)
    → exists (same_key (row_of n input)) rows ≡ exists (same_key (row_of m input)) rows
exists-row_of n m input [] = refl
exists-row_of n m input (x ∷ rows) = cc (same_key-row_of n m input x, exists-row_of n m input rows)

pub same_key_self :
    (n m i : ℕ) (input : Discovery)
    → input.tx_index ≡ some i
    → same_key (row_of n input) (row_of m input) ≡ true
unfolding same_key
same_key_self n m i input e = rw e (ground arith)

-- A log that is found a second time, with its place in the block known, gives no row and leaves the
-- facts as they are.
insert_twice :
    (input : Discovery) (db : Db) (i : ℕ)
    → input.tx_index ≡ some i
    → ((insert_discovered input (insert_discovered input db).1).0 ≡ none)
      × ((insert_discovered input (insert_discovered input db).1).1.facts
          ≡ (insert_discovered input db).1.facts)
unfolding insert_discovered
insert_twice input db i e =
    elim (Bool-cases (exists (same_key (row_of db.next_id input)) db.facts)) [
      | inl known ↦
          let again : exists (same_key (row_of (db.next_id + 1) input)) db.facts ≡ true =
            exists-row_of (db.next_id + 1) db.next_id input db.facts ∙ known in
          rw (known, again) (refl, refl)
      | inr new ↦
          let again : exists (same_key (row_of (db.next_id + 1) input))
                (db.facts ++ (row_of db.next_id input ∷ []))
              ≡ true =
            exists-append (same_key (row_of (db.next_id + 1) input)) db.facts
              (row_of db.next_id input ∷ [])
            ∙ simp (
              exists-row_of (db.next_id + 1) db.next_id input db.facts,
              new,
              same_key_self (db.next_id + 1) db.next_id i input e,
            ) in
          rw (new, again) (refl, refl)
    ]

-- A row with a new key breaks no constraint with the rows that are there.
free-conflicts :
    (n : ℕ) (input : Discovery) (rows : List FactRow)
    → exists (same_key (row_of n input)) rows ≡ false
    → All (λ b. conflicts (row_of n input) b ≡ false) rows
unfolding conflicts
free-conflicts n input rows e =
    All-imp (λ b. same_key (row_of n input) b ≡ false) (λ b. conflicts (row_of n input) b ≡ false)
      rows (λ b h. ground arith) (exists-All (same_key (row_of n input)) rows e)

-- Discovery keeps the constraints of the table, whether the key is new or known.
pub insert-IsConsistent :
    (input : Discovery) (db : Db)
    → IsConsistent db.facts
    → IsConsistent (insert_discovered input db).1.facts
unfolding insert_discovered
insert-IsConsistent input db c =
    elim (Bool-cases (exists (same_key (row_of db.next_id input)) db.facts)) [
      | inl known ↦ rw known c
      | inr new ↦
          let added = row_of db.next_id input in
          let free : All (λ b. conflicts added b ≡ false) db.facts =
            free-conflicts db.next_id input db.facts new in
          let all = db.facts ++ (added ∷ []) in
          rw new (
            All-append (λ a. All (λ b. conflicts a b ≡ false) all) db.facts (added ∷ [])
              (All-imp _ _ db.facts
                (λ a both.
                  All-append (λ b. conflicts a b ≡ false) db.facts (added ∷ []) both.0
                    (conflicts_comm a added ∙ both.1, tt))
                (All-zip _ _ db.facts c free))
              (
                All-append (λ b. conflicts added b ≡ false) db.facts (added ∷ []) free
                    (conflicts_self added, tt),
                tt,
              ))
    ]

-- A queued row that says what was discovered.
abbrev pub IsRowOf : Discovery → FactRow → Type 0
IsRowOf input r =
    (r.chain_key ≡ input.chain_key)
    × (r.block_height ≡ input.block_height)
    × (r.tx_hash ≡ input.tx_hash)
    × (r.tx_index ≡ input.tx_index)
    × (r.log_index ≡ input.log_index)
    × (r.token ≡ input.token)
    × (r.sender ≡ input.sender)
    × (r.recipient ≡ input.recipient)
    × (r.amount ≡ input.amount)
    × (r.correlation_id ≡ input.correlation_id)
    × (r.state ≡ discovered)
    × (r.attempts ≡ 0)

-- A row of the table has the key of the discovery.
abbrev pub is_known : Discovery → Db → Bool
is_known input db = exists (same_key (row_of 0 input)) db.facts

insert-rows :
    (input : Discovery) (db : Db)
    → (is_known input db ≡ true
        → ((insert_discovered input db).0 ≡ none)
          × ((insert_discovered input db).1.facts ≡ db.facts))
      × (is_known input db ≡ false
          → (r : FactRow) × ((insert_discovered input db).0 ≡ some r)
            × ((insert_discovered input db).1.facts ≡ db.facts ++ r ∷ [])
            × IsRowOf input r)
unfolding insert_discovered
insert-rows input db =
    let at = exists-row_of db.next_id 0 input db.facts in
    (
      (λ known. let h = at ∙ known in rw h (refl, refl)),
      (λ new.
          let h = at ∙ new in
          rw h (
            row_of db.next_id input,
            refl,
            refl,
            (refl, refl, refl, refl, refl, refl, refl, refl, refl, refl, refl, refl),
          )),
    )

-- The statement of `insertDiscovered`, on a table that keeps its constraints and whose identifiers come
-- from its sequence: a discovery whose key is known gives no row and changes none, and any other one
-- gives a queued row that says what was discovered, put after the rows that were there; the unique key
-- and the primary key hold after it, and the identifiers come from the sequence.
pub insert-Inserts :
    (input : Discovery) (db : Db)
    → IsConsistent db.facts
    → IsKeyed db
    → IsConsistent (insert_discovered input db).1.facts
      × IsKeyed (insert_discovered input db).1
      × (is_known input db ≡ true
          → ((insert_discovered input db).0 ≡ none)
            × ((insert_discovered input db).1.facts ≡ db.facts))
      × (is_known input db ≡ false
          → (r : FactRow) × ((insert_discovered input db).0 ≡ some r)
            × ((insert_discovered input db).1.facts ≡ db.facts ++ r ∷ [])
            × IsRowOf input r)
insert-Inserts input db c k =
    let (known, new) = insert-rows input db in
    (insert-IsConsistent input db c, insert-IsKeyed input db k, known, new)
