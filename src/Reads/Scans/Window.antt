-- ===== src/Reads/Scans/Window.antt =====
-- The scans bring back the logs of their whole window, in order and each once, whatever order the
-- chunks are answered in.
use clearbook.Prelude.{
  ℕ, suc, ◌+◌, ◌-◌, ◌≤◌, ◌≡◌, refl, ap, ◌∙◌, Option, none, some, List, [], ◌∷◌, arith, ltb,
  if◌then◌else◌, length, get_elem?,
}
use clearbook.Async.{Settled, resolved}
use clearbook.Ranges.{Span}
use clearbook.Ranges.Cover.{in_span, collect, collect-spans}
use clearbook.Reads.Pool.{Pool, Reach}
use clearbook.Reads.Pool.Ordered.{Reach-IsOrdered}
use clearbook.Reads.Scans.{
  vault_lookback_blocks, scan_chunk, scan_concurrency, flat_from, vault_spans, breach_spans,
  outcome_of, logs_of,
}

module _ {A : Type 0} (chain : ℕ → List A) where
  flat-collect :
      (out : ℕ → Option (List A)) (l : List Span) (i : ℕ)
      → ((j : ℕ) (s : Span)
          → get_elem? l j ≡ some s
          → out (i + j) ≡ some (in_span chain s.first s.last))
      → flat_from out i (length l) ≡ collect chain l
  flat-collect out [] i h = refl
  flat-collect out (s ∷ l) i h =
      let first : out i ≡ some (in_span chain s.first s.last) = ap out (omega arith) ∙ h 0 s refl in
      let rest = flat-collect out l (i + 1) (λ j s' at. ap out (omega arith) ∙ h (suc j) s' at) in
      cc (first, rest)

module _ {E A : Type 0} (chain : ℕ → List A) (get_logs : Span → Settled E (List A))
    (answers : (a b : ℕ)
      → get_logs (record { first = a; last = b }) ≡ resolved (in_span chain a b)) where
  module _ (ranges : List Span) {p : Pool E (List A)} {done : ℕ}
      (run : Reach get_logs ranges scan_concurrency p done) (idle : length p.running ≡ 0) where
    filled :
        p.failure ≡ none
        → (j : ℕ) (s : Span) → get_elem? ranges j ≡ some s
        → p.out j ≡ some (in_span chain s.first s.last)
    filled ok j s at =
        let ordered = Reach-IsOrdered get_logs ranges scan_concurrency (omega arith) run in
        let (r, answer, there) = ordered.3 idle ok j s at in
        cc (answers s.first s.last, answer, there)

    never_fails : (o : Option E) → p.failure ≡ o → p.failure ≡ none
    never_fails none same = same
    never_fails (some e) same =
        let ordered = Reach-IsOrdered get_logs ranges scan_concurrency (omega arith) run in
        let (i, s, at, threw) = ordered.4 e same in cc (answers s.first s.last, threw)

    logs_of-collect : logs_of ranges p ≡ resolved (collect chain ranges)
    unfolding logs_of
    logs_of-collect =
        let ok = never_fails p.failure refl in
        ap (λ o. outcome_of (length ranges) o p.out) ok
        ∙ ap resolved (
            flat-collect chain p.out ranges 0 (λ j s at. ap p.out (omega arith) ∙ filled ok j s at))

  -- Where the node answers a log query with what stands in its blocks: once no query is in flight, the
  -- logs of the vault are those of the last 60,000 blocks, in the order of the chain and each once,
  -- whatever order the queries, three at a time, came back in.
  pub vault_logs-window :
      (latest : ℕ) {p : Pool E (List A)} {done : ℕ}
      → Reach get_logs (vault_spans latest) scan_concurrency p done
      → length p.running ≡ 0
      → logs_of (vault_spans latest) p
        ≡ resolved (in_span chain (latest - vault_lookback_blocks) latest)
  unfolding vault_spans
  vault_logs-window latest run idle =
      let from : (if ltb vault_lookback_blocks latest then latest - vault_lookback_blocks else 0)
          ≡ latest - vault_lookback_blocks =
        ground arith in
      logs_of-collect (vault_spans latest) run idle
      ∙ ap resolved (
          collect-spans chain scan_chunk
            (if ltb vault_lookback_blocks latest then latest - vault_lookback_blocks else 0) latest
            (omega arith) (ground arith)
          ∙ ap (λ a. in_span chain a latest) from)

  -- In the same way, the breach logs are those from the block of the claim on.
  breach_logs-window :
      (from_block latest : ℕ) {p : Pool E (List A)} {done : ℕ}
      → from_block ≤ latest
      → Reach get_logs (breach_spans from_block latest) scan_concurrency p done
      → length p.running ≡ 0
      → logs_of (breach_spans from_block latest) p ≡ resolved (in_span chain from_block latest)
  unfolding breach_spans
  breach_logs-window from_block latest le run idle =
      logs_of-collect (breach_spans from_block latest) run idle
      ∙ ap resolved (collect-spans chain scan_chunk from_block latest (omega arith) (omega arith))
