-- ===== src/Reads/Pool/Slots.antt =====
-- The indices in flight, and what `mapLimit` keeps of its slots.
use clearbook.Prelude.{
  ℕ, zero, suc, ◌+◌, ◌≤◌, ◌<◌, ◌≡◌, refl, true, none, some, List, [], ◌∷◌, arith, leb, ◌==◌,
  if◌then◌else◌, length, get_elem?, Bool-cases, inl, inr, min,
}
use clearbook.Async.{Settled, resolved, rejected}
use clearbook.Reads.Pool.{Pool, without, is_running, take_next}

-- How often an index is in flight.
abbrev pub flights : ℕ → List ℕ → ℕ
flights i [] = 0
flights i (j ∷ js) = let n = flights i js in if j == i then suc n else n

pub flights-without :
    (i j : ℕ) (js : List ℕ)
    → flights j (without i js) + (if j == i then min 1 (flights i js) else 0) ≡ flights j js
flights-without i j [] = ground arith
flights-without i j (k ∷ js) = ground (arith, flights-without i j js)

pub length-without :
    (i : ℕ) (js : List ℕ) → length (without i js) + min 1 (flights i js) ≡ length js
length-without i [] = ground arith
length-without i (k ∷ js) = ground (arith, length-without i js)

pub is_running-flights : (i : ℕ) (js : List ℕ) → is_running i js ≡ true → 1 ≤ flights i js
is_running-flights i [] h = cc
is_running-flights i (k ∷ js) h = ground (arith, is_running-flights i js)

pub get_elem-lt :
    {T : Type 0} (items : List T) (i : ℕ) (x : T) → get_elem? items i ≡ some x → i < length items
get_elem-lt [] i x h = cc
get_elem-lt (y ∷ items) zero x h = omega arith
get_elem-lt (y ∷ items) (suc i) x h = omega (arith, get_elem-lt items i x h)

pub get_elem-found :
    {T : Type 0} (items : List T) (i : ℕ)
    → i < length items
    → (x : T) × (get_elem? items i ≡ some x)
get_elem-found [] i h = absurd (omega arith)
get_elem-found (y ∷ items) zero h = (y, refl)
get_elem-found (y ∷ items) (suc i) h = get_elem-found items i (omega arith)

module _ {E R T : Type 0} (work : T → Settled E R) (items : List T) where
  -- The place of an item whose work is settled holds its result.
  abbrev pub IsFilled : Pool E R → ℕ → T → Type 0
  IsFilled p i x = (r : R) × (work x ≡ resolved r) × (p.out i ≡ some r)

  -- The work on some item threw this.
  abbrev pub IsBlamed : E → Type 0
  IsBlamed e = (i : ℕ) × (x : T) × (get_elem? items i ≡ some x) × (work x ≡ rejected e)

  -- What every step keeps: the indices in flight are taken ones and each is in flight once; while
  -- nothing has failed, every place that was taken and is not in flight is filled; and the steps made
  -- and the works in flight are the indices taken.
  pub record Core (p : Pool E R) (done : ℕ) : Type 0 where
    pub below : (i : ℕ) → 1 ≤ flights i p.running → (i < p.next) × (i < length items)
    pub distinct : (i : ℕ) → flights i p.running ≤ 1
    pub filled :
        (i : ℕ) (x : T)
        → get_elem? items i ≡ some x
        → i < p.next
        → flights i p.running ≡ 0
        → p.failure ≡ none
        → IsFilled p i x
    pub blamed : (e : E) → p.failure ≡ some e → IsBlamed e
    pub counted : done + length p.running ≡ min p.next (length items)

  past_end-Core :
      (p : Pool E R) (done : ℕ)
      → length items ≤ p.next
      → Core p done
      → Core (record p { next = p.next + 1 }) done
  past_end-Core p done over c = record {
    below = λ i h. (omega (arith, (c.below i h).0), (c.below i h).1);
    distinct = c.distinct;
    filled = λ i x at lt idle ok. c.filled i x at (omega (arith, get_elem-lt items i x at)) idle ok;
    blamed = c.blamed;
    counted = omega (arith, c.counted);
  }

  taken-Core :
      (p : Pool E R) (done : ℕ)
      → p.next < length items
      → Core p done
      → Core (record p { next = p.next + 1; running = p.next ∷ p.running }) done
  taken-Core p done room c = record {
    below = λ i h. ground (arith, c.below i);
    distinct = λ i. ground (arith, c.below i, c.distinct i);
    filled = λ i x at lt idle ok. c.filled i x at (ground arith) (ground arith) ok;
    blamed = c.blamed;
    counted = omega (arith, c.counted);
  }

  pub take_next-Core :
      (p : Pool E R) (done : ℕ) → Core p done → Core (take_next (length items) p) done
  take_next-Core p done c = elim (Bool-cases (leb (length items) p.next)) [
    | inl over ↦ rw over (past_end-Core p done (ground arith) c)
    | inr room ↦ rw room (taken-Core p done (ground arith) c)
  ]
