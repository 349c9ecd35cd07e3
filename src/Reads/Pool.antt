-- ===== src/Reads/Pool.antt =====
-- `mapLimit` of frontend/lib/hooks.ts: work on every item, at most `limit` at a time. A runner takes the
-- next index, awaits the work on its item, writes the result to the place of the item and goes on; the
-- works in flight settle in any order.
pub mod Slots
pub mod Keeps
pub mod Ordered
use clearbook.Prelude.{
  ℕ, zero, suc, ◌+◌, ◌≡◌, Bool, true, false, Option, none, some, List, [], ◌∷◌, leb, ◌==◌, min,
  if◌then◌else◌, length, get_elem?, exists,
}
use clearbook.Async.{Settled, resolved, rejected}

-- `next`, `out`, the indices that the runners await, and what `Promise.all` was rejected with.
pub record Pool (E R : Type 0) : Type 0 where
  pub next : ℕ
  pub out : ℕ → Option R
  pub running : List ℕ
  pub failure : Option E

-- out[i] = r
abbrev pub write_slot : {R : Type 0} → ℕ → R → (ℕ → Option R) → ℕ → Option R
write_slot i r out j = if j == i then some r else out j

abbrev pub without : ℕ → List ℕ → List ℕ
without i [] = []
without i (j ∷ js) = let rest = without i js in if j == i then js else j ∷ rest

abbrev pub is_running : ℕ → List ℕ → Bool
is_running i js = exists (λ j. j == i) js

-- The first failure is what `Promise.all` is rejected with.
abbrev pub or_first : {E : Type 0} → Option E → E → Option E
or_first none e = some e
or_first (some first) e = some first

module _ {E R : Type 0} where
  -- From the top of the runner's loop to its next `await`, or to its `return`.
  abbrev pub take_next : ℕ → Pool E R → Pool E R
  take_next size p =
      if leb size p.next
      then record p { next = p.next + 1 }
      else record p { next = p.next + 1; running = p.next ∷ p.running }

  -- `Array.from({ length: n }, async () => { … })`
  abbrev pub launch : ℕ → ℕ → Pool E R → Pool E R
  launch size zero p = p
  launch size (suc n) p = launch size n (take_next size p)

  unfoldable pub started : ℕ → ℕ → Pool E R
  started limit size =
      launch size (min limit size)
        (record { next = 0; out = λ i. none; running = []; failure = none })

  -- The work on the item of `i` is resolved with `r`.
  abbrev pub on_result : ℕ → ℕ → R → Pool E R → Pool E R
  on_result size i r p =
      take_next size (record p { out = write_slot i r p.out; running = without i p.running })

  -- The work on it throws: its runner ends.
  abbrev pub on_failure : ℕ → E → Pool E R → Pool E R
  on_failure i e p = record p { running = without i p.running; failure = or_first p.failure e }

-- One work in flight settles, whichever it is.
pub data Step {E R T : Type 0} (work : T → Settled E R) (items : List T)
    : Pool E R → Pool E R → Type 0 where
  resolves :
      (p : Pool E R) (i : ℕ) (x : T) (r : R)
      → is_running i p.running ≡ true
      → get_elem? items i ≡ some x
      → work x ≡ resolved r
      → Step work items p (on_result (length items) i r p)
  throws :
      (p : Pool E R) (i : ℕ) (x : T) (e : E)
      → is_running i p.running ≡ true
      → get_elem? items i ≡ some x
      → work x ≡ rejected e
      → Step work items p (on_failure i e p)

-- From the start with `limit`, after some steps; the number of steps is counted.
pub data Reach {E R T : Type 0} (work : T → Settled E R) (items : List T) (limit : ℕ)
    : Pool E R → ℕ → Type 0 where
  starts : Reach work items limit (started limit (length items)) 0
  steps :
      {p q : Pool E R} {n : ℕ}
      → Reach work items limit p n
      → Step work items p q
      → Reach work items limit q (n + 1)
