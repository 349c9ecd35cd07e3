-- ===== src/Ranges/Cover.antt =====
-- The ranges of a scan cover every block once and no other, in order, each within the chunk.
use clearbook.Prelude.{
  ℕ, zero, suc, ◌+◌, ◌-◌, ◌≤◌, ◌<◌, ◌≡◌, refl, sym, ap, List, [], ◌∷◌, ◌++◌, arith, ltb, leb,
  if◌then◌else◌, inl, inr, Bool-cases, ltb→lt, ◌&&◌,
}
use mathlib.Core.Path.{◌≡⟨◌⟩◌, ◌∎}
use mathlib.Core.List.{append_assoc}
use native.Mathlib.Nat.{zero-add, add-zero, suc-add}
use clearbook.Ranges.{Span, spans_from, spans}

-- The ranges tile the blocks from `start` to `last`: they are in order and leave no gap, none is
-- empty, and none is longer than `chunk`.
abbrev pub Tiles : ℕ → ℕ → ℕ → List Span → Type 0
Tiles chunk start last [] = last < start
Tiles chunk start last (s ∷ rest) =
    (s.first ≡ start)
    × (start ≤ s.last)
    × (s.last ≤ last)
    × (s.last < start + chunk)
    × Tiles chunk (s.last + 1) last rest

spans_from-done : (fuel chunk last start : ℕ) → last < start → spans_from fuel chunk last start ≡ []
unfolding spans_from
spans_from-done zero chunk last start h = refl
spans_from-done (suc fuel) chunk last start h = ground arith

spans_from-Tiles :
    (fuel chunk last start : ℕ)
    → 0 < chunk
    → last < start + fuel
    → Tiles chunk start last (spans_from fuel chunk last start)
unfolding spans_from
spans_from-Tiles zero chunk last start c h = omega arith
spans_from-Tiles (suc fuel) chunk last start c h = elim (Bool-cases (ltb last start)) [
  | inl beyond ↦ rw beyond (ltb→lt last start beyond)
  | inr within ↦ rw within (elim (Bool-cases (ltb last (start + chunk - 1))) [
    | inl short ↦
        rw (short, spans_from-done fuel chunk last (start + chunk) (ground arith))
          (refl, ground arith, omega arith, ground arith, omega arith)
    | inr full ↦
        let next : start + chunk - 1 + 1 ≡ start + chunk = omega arith in
        rw (full, next)
          (
            refl,
            omega arith,
            ground arith,
            omega arith,
            spans_from-Tiles fuel chunk last (start + chunk) c (omega arith),
          )
  ])
]

-- A scan in chunks reads every block from the first to the last once, in order, and no other.
pub spans-Tiles :
    (chunk start last : ℕ) → 0 < chunk → Tiles chunk start last (spans chunk start last)
unfolding spans
spans-Tiles chunk start last c =
    spans_from-Tiles (last + 1 - start) chunk last start c (omega arith)

-- How many ranges hold the block.
abbrev pub times_covered : ℕ → List Span → ℕ
times_covered b [] = 0
times_covered b (s ∷ rest) =
    let n = times_covered b rest in if leb s.first b && leb b s.last then suc n else n

before-Tiles :
    (chunk start last : ℕ) (l : List Span) (b : ℕ)
    → Tiles chunk start last l
    → b < start
    → times_covered b l ≡ 0
before-Tiles chunk start last [] b t h = refl
before-Tiles chunk start last (s ∷ l) b t h =
    ground (arith, before-Tiles chunk (s.last + 1) last l b t.4)

once-Tiles :
    (chunk start last : ℕ) (l : List Span) (b : ℕ)
    → Tiles chunk start last l
    → start ≤ b
    → times_covered b l ≡ (if leb b last then 1 else 0)
once-Tiles chunk start last [] b t h = ground arith
once-Tiles chunk start last (s ∷ l) b t h = ground (
  arith,
  before-Tiles chunk (s.last + 1) last l b t.4,
  once-Tiles chunk (s.last + 1) last l b t.4,
)

-- A block from the first to the last stands in exactly one range, and any other in none.
pub spans_cover :
    (chunk start last b : ℕ)
    → 0 < chunk
    → times_covered b (spans chunk start last) ≡ (if leb start b && leb b last then 1 else 0)
spans_cover chunk start last b c = ground (
  arith,
  before-Tiles chunk start last (spans chunk start last) b (spans-Tiles chunk start last c),
  once-Tiles chunk start last (spans chunk start last) b (spans-Tiles chunk start last c),
)

-- What stands in the blocks from `first`, `n` of them, in order.
module _ {ℓ} {A : Type ℓ} (block : ℕ → List A) where
  abbrev pub blocks_from : ℕ → ℕ → List A
  blocks_from first zero = []
  blocks_from first (suc n) = block first ++ blocks_from (first + 1) n

  -- What stands in the blocks of a range, both ends included: the documented answer of a log query.
  abbrev pub in_span : ℕ → ℕ → List A
  in_span first last = blocks_from first (last + 1 - first)

  abbrev pub collect : List Span → List A
  collect [] = []
  collect (s ∷ rest) = in_span s.first s.last ++ collect rest

  blocks_from-add :
      (first n m : ℕ) → blocks_from first (n + m) ≡ blocks_from first n ++ blocks_from (first + n) m
  blocks_from-add first zero m = simp (zero-add, add-zero)
  blocks_from-add first (suc n) m =
      let e : first + 1 + n ≡ first + suc n = omega arith in
      simp (suc-add, blocks_from-add (first + 1) n m, e, append_assoc)

  collect-Tiles :
      (chunk start last : ℕ) (l : List Span)
      → start ≤ last + 1
      → Tiles chunk start last l
      → collect l ≡ in_span start last
  collect-Tiles chunk start last [] b t = let e : last + 1 - start ≡ 0 = omega arith in rw e
  collect-Tiles chunk start last (s ∷ l) b t =
      let n = s.last + 1 - start in
      let m = last + 1 - (s.last + 1) in
      let sum : last + 1 - start ≡ n + m = omega arith in
      let next : start + n ≡ s.last + 1 = omega arith in
      in_span s.first s.last ++ collect l
      ≡⟨ (rw (t.0, collect-Tiles chunk (s.last + 1) last l (omega arith) t.4)) ⟩
        blocks_from start n ++ blocks_from (s.last + 1) m
      ≡⟨ ap (λ b. blocks_from start n ++ blocks_from b m) (sym next) ⟩
        blocks_from start n ++ blocks_from (start + n) m
      ≡⟨ sym (blocks_from-add start n m) ⟩ blocks_from start (n + m)
      ≡⟨ ap (blocks_from start) (sym sum) ⟩ in_span start last ∎

  -- The queries of a scan in chunks bring back what one query over the whole range would.
  pub collect-spans :
      (chunk start last : ℕ)
      → 0 < chunk
      → start ≤ last + 1
      → collect (spans chunk start last) ≡ in_span start last
  collect-spans chunk start last c b =
      collect-Tiles chunk start last (spans chunk start last) b (spans-Tiles chunk start last c)
