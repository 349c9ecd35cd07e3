-- ===== src/Examples/Scans.antt =====
-- A scan of ten blocks in chunks of three, and a histogram of four samples.
use clearbook.Prelude.{ℕ, ◌≡◌, ◌&&◌, leb, if◌then◌else◌, List, [], ◌∷◌, arith}
use clearbook.Ranges.{spans}
use clearbook.Ranges.Cover.{
  Tiles, spans-Tiles, spans_cover, times_covered, collect, in_span, collect-spans,
}
use clearbook.Metrics.{histogram}
use clearbook.Metrics.Histograms.{Summarises, histogram-Summarises}

spans-Tiles_example : Tiles 3 5 14 (spans 3 5 14)
spans-Tiles_example = spans-Tiles 3 5 14 (omega arith)

spans_cover_example : times_covered 8 (spans 3 5 14) ≡ (if leb 5 8 && leb 8 14 then 1 else 0)
spans_cover_example = spans_cover 3 5 14 8 (omega arith)

abbrev twice : ℕ → List ℕ
twice n = n ∷ n ∷ []

collect-spans_example : collect twice (spans 3 5 14) ≡ in_span twice 5 14
collect-spans_example = collect-spans twice 3 5 14 (omega arith) (omega arith)

histogram-Summarises_example :
    Summarises (30 ∷ 10 ∷ 20 ∷ 40 ∷ []) (histogram (30 ∷ 10 ∷ 20 ∷ 40 ∷ []))
histogram-Summarises_example = histogram-Summarises (30 ∷ 10 ∷ 20 ∷ 40 ∷ []) (omega arith)
