-- ===== src/Reads/Pool/Keeps.antt =====
-- What `mapLimit` keeps at every step: the order of the items, and its limit.

use clearbook.Prelude.{
  ℕ, zero, suc, ◌+◌, ◌≤◌, ◌<◌, ◌≡◌, ◌≢◌, ◌⊎◌, refl, ap, ◌∙◌, true, Option, none, some, List, [],
  arith, ◌==◌, length, get_elem?, Bool-cases, inl, inr, min,
}
use clearbook.Async.{Settled, resolved, rejected}
use clearbook.Reads.Pool.{
  Pool, write_slot, without, is_running, or_first, take_next, launch, on_failure, Step, resolves,
  throws,
}
use clearbook.Reads.Pool.Slots.{
  flights-without, length-without, is_running-flights, Core, take_next-Core,
}

or_first-none : {E : Type 0} (o : Option E) (e : E) → or_first o e ≢ none
or_first-none none e h = cc
or_first-none (some e') e h = cc

or_first-cases :
    {E : Type 0} (o : Option E) (e e' : E) → or_first o e ≡ some e' → (o ≡ some e') ⊎ (e ≡ e')
or_first-cases none e e' h = inr (cc)
or_first-cases (some first) e e' h = inl h

module _ {E R T : Type 0} (work : T → Settled E R) (items : List T) where
  -- The limit is kept, and a pool with no work in flight has taken every index, or has failed.
  pub record Kept (limit : ℕ) (p : Pool E R) (done : ℕ) : Type 0 where
    pub core : Core work items p done
    pub bounded : length p.running ≤ limit
    pub busy : length p.running ≡ 0 → p.failure ≡ none → length items ≤ p.next

  written-Core :
      (p : Pool E R) (done i : ℕ) (x : T) (r : R)
      → is_running i p.running ≡ true
      → get_elem? items i ≡ some x
      → work x ≡ resolved r
      → Core work items p done
      → Core work items
          (record p { out = write_slot i r p.out; running = without i p.running })
          (done + 1)
  written-Core p done i x r running at result c =
      let flying = is_running-flights i p.running running in
      record {
        below = λ j h. c.below j (ground (arith, flights-without i j p.running));
        distinct = λ j. ground (arith, flights-without i j p.running, c.distinct j);
        filled = λ j y at' lt idle ok. elim (Bool-cases (j == i)) [
          | inl here ↦
              let same : j ≡ i = ground arith in
              let at'' : get_elem? items i ≡ some y = rw⁻¹ same at' in
              let same_item : x ≡ y = cc in (r, (rw⁻¹ same_item result), rw here refl)
          | inr other ↦
              let (r', result', there) =
                c.filled j y at' lt (ground (arith, flights-without i j p.running)) ok in
              (r', result', rw other there)
        ];
        blamed = c.blamed;
        counted = ground (arith, length-without i p.running, c.counted);
      }

  failed-Core :
      (p : Pool E R) (done i : ℕ) (x : T) (e : E)
      → is_running i p.running ≡ true
      → get_elem? items i ≡ some x
      → work x ≡ rejected e
      → Core work items p done
      → Core work items (on_failure i e p) (done + 1)
  failed-Core p done i x e running at result c =
      let flying = is_running-flights i p.running running in
      record {
        below = λ j h. c.below j (ground (arith, flights-without i j p.running));
        distinct = λ j. ground (arith, flights-without i j p.running, c.distinct j);
        filled = λ j y at' lt idle ok. absurd (or_first-none p.failure e ok);
        blamed = λ e' h. elim (or_first-cases p.failure e e' h) [
          | inl old ↦ c.blamed e' old
          | inr new ↦ (i, x, at, result ∙ ap rejected new)
        ];
        counted = ground (arith, length-without i p.running, c.counted);
      }

  take_next-bounded :
      (limit : ℕ) (p : Pool E R)
      → length p.running + 1 ≤ limit
      → length (take_next (length items) p).running ≤ limit
  take_next-bounded limit p h = ground arith

  take_next-busy :
      (p : Pool E R)
      → length (take_next (length items) p).running ≡ 0
      → length items ≤ (take_next (length items) p).next
  take_next-busy p h = ground arith

  take_next-failure : (p : Pool E R) → (take_next (length items) p).failure ≡ p.failure
  take_next-failure p = ground arith

  taken-Kept :
      (limit : ℕ) (p : Pool E R)
      → length p.running + 1 ≤ limit
      → Core work items p 0
      → Kept limit (take_next (length items) p) 0
  taken-Kept limit p room c = record {
    core = take_next-Core work items p 0 c;
    bounded = take_next-bounded limit p room;
    busy = λ idle ok. take_next-busy p idle;
  }

  launch-Kept :
      (k limit : ℕ) (p : Pool E R)
      → length p.running + k ≤ limit
      → Kept limit p 0
      → Kept limit (launch (length items) k p) 0
  launch-Kept zero limit p room h = h
  launch-Kept (suc k) limit p room h =
      launch-Kept k limit (take_next (length items) p) (ground arith)
        (taken-Kept limit p (omega arith) h.core)

  -- Before the first index is taken nothing is in flight, and only an empty list is done.
  started-Core :
      Core work items (record { next = 0; out = λ i. none; running = []; failure = none }) 0
  started-Core = record {
    below = λ i h. absurd (omega arith);
    distinct = λ i. omega arith;
    filled = λ i x at lt idle ok. absurd (omega arith);
    blamed = λ e h. cc;
    counted = omega arith;
  }

  abbrev empty : Pool E R
  empty = record { next = 0; out = λ i. none; running = []; failure = none }

  pub launched-Kept :
      (k limit : ℕ)
      → 0 < limit
      → k ≡ min limit (length items)
      → Kept limit (launch (length items) k empty) 0
  launched-Kept zero limit positive all = record {
    core = started-Core;
    bounded = omega arith;
    busy = λ idle ok. omega (arith, all);
  }
  launched-Kept (suc k) limit positive all =
      launch-Kept k limit (take_next (length items) empty) (ground (arith, all))
        (taken-Kept limit empty (omega (arith, all)) started-Core)

  pub Step-Kept :
      {p q : Pool E R} (limit done : ℕ)
      → Step work items p q
      → Kept limit p done
      → Kept limit q (done + 1)
  Step-Kept limit done (resolves p i x r running at result) h =
      let left = length-without i p.running in
      let flying = is_running-flights i p.running running in
      let written = record p { out = write_slot i r p.out; running = without i p.running } in
      record {
        core =
            take_next-Core work items written (done + 1)
              (written-Core p done i x r running at result h.core);
        bounded = take_next-bounded limit written (omega (arith, left, flying, h.bounded));
        busy = λ idle ok. take_next-busy written idle;
      }
  Step-Kept limit done (throws p i x e running at result) h = record {
    core = failed-Core p done i x e running at result h.core;
    bounded = omega (arith, length-without i p.running, h.bounded);
    busy = λ idle ok. absurd (or_first-none p.failure e ok);
  }
