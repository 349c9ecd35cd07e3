-- ===== src/Examples/Readings.antt =====
-- Works that settle out of their order, and a scan of one range.
use clearbook.Prelude.{
  ℕ, ◌+◌, ◌-◌, ◌≤◌, ◌<◌, ◌≡◌, ◌==◌, refl, none, some, List, [], ◌∷◌, if◌then◌else◌, length,
  get_elem?, arith,
}
use clearbook.Async.{Settled, resolved}
use clearbook.Ranges.{Span, spans, spans_from, span_end}
use clearbook.Ranges.Cover.{in_span}
use clearbook.Reads.Pool.{Pool, started, on_result, Step, resolves, Reach, starts, steps}
use clearbook.Reads.Pool.Slots.{IsFilled, IsBlamed}
use clearbook.Reads.Pool.Ordered.{Reach-IsOrdered}
use clearbook.Reads.Scans.{vault_lookback_blocks, scan_concurrency, vault_spans, logs_of}
use clearbook.Reads.Scans.Window.{vault_logs-window}

abbrev items : List ℕ
items = 10 ∷ 20 ∷ 30 ∷ []

-- The double of an item.
abbrev work : ℕ → Settled ℕ ℕ
work x = resolved (x + x)

-- Two at a time; the second item is the first to settle, and then the third.
abbrev after_two : Pool ℕ ℕ
after_two = on_result 3 2 60 (on_result 3 1 40 (started 2 3))

two_steps : Reach work items 2 after_two 2
unfolding started
two_steps =
    steps (steps starts (resolves _ 1 20 40 refl refl refl)) (resolves _ 2 30 60 refl refl refl)

first_in_flight : after_two.running ≡ 0 ∷ []
unfolding started
first_in_flight = refl

Reach-IsOrdered_example :
    (length after_two.running ≤ 2)
    × (2 ≤ length items)
    × (0 < length after_two.running → (q : Pool ℕ ℕ) × Step work items after_two q)
    × (length after_two.running ≡ 0
        → after_two.failure ≡ none
        → (i x : ℕ) → get_elem? items i ≡ some x
        → IsFilled work items after_two i x)
    × ((e : ℕ) → after_two.failure ≡ some e → IsBlamed work items e)
Reach-IsOrdered_example = Reach-IsOrdered work items 2 (omega arith) two_steps

-- One log, in block 4.
abbrev chain : ℕ → List ℕ
chain block = if block == 4 then 77 ∷ [] else []

abbrev get_logs : Span → Settled ℕ (List ℕ)
get_logs span = resolved (in_span chain span.first span.last)

abbrev scanned : Pool ℕ (List ℕ)
scanned = on_result 1 0 (77 ∷ []) (started 3 1)

idle : length scanned.running ≡ 0
unfolding started
idle = refl

one_step : Reach get_logs (vault_spans 5) scan_concurrency scanned 1
unfolding started vault_spans spans spans_from span_end
one_step = steps starts (resolves _ 0 (record { first = 0; last = 5 }) (77 ∷ []) refl refl refl)

vault_logs-window_example :
    logs_of (vault_spans 5) scanned ≡ resolved (in_span chain (5 - vault_lookback_blocks) 5)
vault_logs-window_example =
    vault_logs-window chain get_logs (λ a b. refl) 5 {p = scanned} {done = 1} one_step idle

-- The one log of the scan.
found : in_span chain (5 - vault_lookback_blocks) 5 ≡ 77 ∷ []
found = refl
