-- ===== src/Ranges.antt =====
-- The block ranges of the chunked scans: `for (start = from; start <= last; start += chunk)` with
-- `end = min(start + chunk - 1, last)`, as in `recentFacts` (worker/src/enforce.ts), `boundTreasuries`
-- and `measureCoverage` (frontend/lib/coverage.ts), `sync` (worker/src/index.ts) and `scan`
-- (worker/src/watch.ts).
pub mod Cover
use clearbook.Prelude.{ℕ, zero, suc, ◌+◌, ◌-◌, List, [], ◌∷◌, ltb, if◌then◌else◌}

pub record Span : Type 0 where
  pub first : ℕ
  pub last : ℕ

-- `start + chunk - 1n > last ? last : start + chunk - 1n`
unfoldable pub span_end : ℕ → ℕ → ℕ → ℕ
span_end chunk last start = if ltb last (start + chunk - 1) then last else start + chunk - 1

-- The loop on fuel.
unfoldable pub spans_from : ℕ → ℕ → ℕ → ℕ → List Span
unfolding span_end
spans_from zero chunk last start = []
spans_from (suc fuel) chunk last start =
    let rest = spans_from fuel chunk last (start + chunk) in
    if ltb last start then [] else record { first = start; last = span_end chunk last start } ∷ rest

-- With a round for every block the fuel is never used up: `Cover.spans-Tiles`.
unfoldable pub spans : ℕ → ℕ → ℕ → List Span
unfolding spans_from
spans chunk start last = spans_from (last + 1 - start) chunk last start
