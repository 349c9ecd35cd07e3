-- ===== src/Metrics.antt =====
-- The in-process counters and histograms of worker/src/log.ts (class `Metrics`). A sample is a
-- duration in whole milliseconds, so a natural number.
pub mod Histograms
use clearbook.Prelude.{
  ℕ, zero, suc, ◌+◌, ◌-◌, ◌*◌, ◌/◌, Bool, true, false, Option, none, some, List, [], ◌∷◌, ◌++◌, leb,
  if◌then◌else◌, length, get_elem?, or_else,
}
use clearbook.Text.{Text, codes}
use clearbook.Text.Assoc.{Assoc, lookup, insert}

pub record Metrics : Type 0 where
  pub counters : Assoc ℕ
  pub samples : Assoc (List ℕ)

-- `${k}="${v}"`, joined by commas.
abbrev pub joined_labels : List (Text × Text) → Text
joined_labels [] = []
joined_labels ((k, v) ∷ []) = k ++ (codes "=\"" ++ (v ++ codes "\""))
joined_labels ((k, v) ∷ rest) = k ++ (codes "=\"" ++ (v ++ (codes "\"," ++ joined_labels rest)))

unfoldable pub metric_key : Text → List (Text × Text) → Text
metric_key name [] = name
metric_key name (label ∷ labels) =
    name ++ (codes "{" ++ (joined_labels (label ∷ labels) ++ codes "}"))

unfoldable pub increment : Text → List (Text × Text) → ℕ → Metrics → Metrics
increment name labels by m =
    let k = metric_key name labels in
    record m { counters = insert k (or_else (lookup k m.counters) 0 + by) m.counters }

unfoldable pub observe : Text → ℕ → Metrics → Metrics
observe name value m = record m {
  samples = insert name (or_else (lookup name m.samples) [] ++ (value ∷ [])) m.samples;
}

-- `[...values].sort((a, b) => a - b)`
abbrev pub insert_number : ℕ → List ℕ → List ℕ
insert_number x [] = x ∷ []
insert_number x (y ∷ ys) = if leb x y then x ∷ y ∷ ys else y ∷ insert_number x ys

unfoldable pub sort_numbers : List ℕ → List ℕ
sort_numbers [] = []
sort_numbers (x ∷ xs) = insert_number x (sort_numbers xs)

-- A read past the end of an array is `undefined`.
pub record Histogram : Type 0 where
  pub count : ℕ
  pub least : Option ℕ
  pub p50 : Option ℕ
  pub p90 : Option ℕ
  pub greatest : Option ℕ

-- `Math.floor(n * 0.5)` and `Math.floor(n * 0.9)` are the exact quotients at every array length.
unfoldable pub histogram : List ℕ → Histogram
histogram values =
    let sorted = sort_numbers values in
    record {
      count = length sorted;
      least = get_elem? sorted 0;
      p50 = get_elem? sorted (length sorted * 5 / 10);
      p90 = get_elem? sorted (length sorted * 9 / 10);
      greatest = get_elem? sorted (length sorted - 1);
    }

-- The loop over the samples, which skips a name with none.
unfoldable pub histograms : Assoc (List ℕ) → Assoc Histogram → Assoc Histogram
unfolding histogram
histograms [] out = out
histograms ((name, []) ∷ rest) out = histograms rest out
histograms ((name, v ∷ values) ∷ rest) out =
    histograms rest (insert name (histogram (v ∷ values)) out)

unfoldable pub snapshot : Metrics → Assoc ℕ × Assoc Histogram
unfolding histograms
snapshot m = (m.counters, histograms m.samples [])
