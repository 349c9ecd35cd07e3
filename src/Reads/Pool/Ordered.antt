-- ===== src/Reads/Pool/Ordered.antt =====
-- Whatever order the works settle in, `mapLimit` keeps the order of the items and its limit, and ends.

use clearbook.Prelude.{
  ℕ, ◌≤◌, ◌<◌, ◌≡◌, refl, true, none, some, List, [], ◌∷◌, arith, length, get_elem?, min,
}
use clearbook.Async.{Settled, resolved, rejected}
use clearbook.Reads.Pool.{Pool, is_running, started, Step, resolves, throws, Reach, starts, steps}
use clearbook.Reads.Pool.Slots.{flights, get_elem-lt, get_elem-found, IsFilled, IsBlamed}
use clearbook.Reads.Pool.Keeps.{Kept, launched-Kept, Step-Kept}

no_flights : (i : ℕ) (js : List ℕ) → length js ≡ 0 → flights i js ≡ 0
no_flights i [] h = refl
no_flights i (j ∷ js) h = absurd (omega arith)

module _ {E R T : Type 0} (work : T → Settled E R) (items : List T) where
  Reach-Kept :
      (limit : ℕ) {p : Pool E R} {done : ℕ}
      → 0 < limit
      → Reach work items limit p done
      → Kept work items limit p done
  unfolding started
  Reach-Kept limit positive starts =
      launched-Kept work items (min limit (length items)) limit positive refl
  Reach-Kept limit positive (steps r s) =
      Step-Kept work items limit _ s (Reach-Kept limit positive r)

  -- A work in flight can settle.
  flying-Step :
      (p : Pool E R) (i : ℕ) (x : T) (answer : Settled E R)
      → is_running i p.running ≡ true
      → get_elem? items i ≡ some x
      → work x ≡ answer
      → (q : Pool E R) × Step work items p q
  flying-Step p i x (resolved r) running at result = (_, resolves p i x r running at result)
  flying-Step p i x (rejected e) running at result = (_, throws p i x e running at result)

  goes_on :
      (p : Pool E R) (js : List ℕ)
      → p.running ≡ js
      → ((i : ℕ) → 1 ≤ flights i p.running → i < length items)
      → 0 < length js
      → (q : Pool E R) × Step work items p q
  goes_on p [] same below busy = absurd (omega arith)
  goes_on p (j ∷ js) same below busy =
      let (x, at) = get_elem-found items j (below j (rw same (ground arith))) in
      flying-Step p j x (work x) (rw same (ground arith)) at refl

  -- With a limit of at least one, and whatever order the works settle in: no more than `limit` works
  -- are ever in flight, no more steps are made than there are items, and as long as a work is in flight
  -- there is a next step; and when none is, every place holds the result of its own item, as if the
  -- works had been done one after the other, or `mapLimit` throws what one of them threw.
  pub Reach-IsOrdered :
      {p : Pool E R} {done : ℕ} (limit : ℕ)
      → 0 < limit
      → Reach work items limit p done
      → (length p.running ≤ limit)
        × (done ≤ length items)
        × (0 < length p.running → (q : Pool E R) × Step work items p q)
        × (length p.running ≡ 0
            → p.failure ≡ none
            → (i : ℕ) (x : T) → get_elem? items i ≡ some x
            → IsFilled work items p i x)
        × ((e : E) → p.failure ≡ some e → IsBlamed work items e)
  Reach-IsOrdered {p} limit positive r =
      let k = Reach-Kept limit positive r in
      (
        k.bounded,
        omega (arith, k.core.counted),
        (λ busy. goes_on p p.running refl (λ i h. (k.core.below i h).1) busy),
        (λ idle ok i x at.
            k.core.filled i x at (omega (arith, k.busy idle ok, get_elem-lt items i x at))
              (no_flights i p.running idle) ok),
        k.core.blamed,
      )
