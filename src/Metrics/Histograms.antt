-- ===== src/Metrics/Histograms.antt =====
-- What a histogram says of its samples.
use clearbook.Prelude.{
  ℕ, zero, suc, ◌-◌, ◌*◌, ◌/◌, ◌≤◌, ◌<◌, ◌≡◌, refl, some, List, [], ◌∷◌, arith, leb, length,
  get_elem?, All, All-get_elem?, le_refl, Bool-cases, inl, inr,
}
use mathlib.Core.Path.{subst}
use clearbook.Metrics.{insert_number, sort_numbers, Histogram, histogram}

abbrev pub IsSorted : List ℕ → Type 0
IsSorted [] = Unit
IsSorted (x ∷ xs) = All (λ y. x ≤ y) xs × IsSorted xs

All-le_trans : (x y : ℕ) (xs : List ℕ) → x ≤ y → All (λ z. y ≤ z) xs → All (λ z. x ≤ z) xs
All-le_trans x y [] h a = tt
All-le_trans x y (z ∷ xs) h a = (omega arith, All-le_trans x y xs h a.1)

module _ (P : ℕ → Type 0) where
  All-insert_number : (x : ℕ) (xs : List ℕ) → P x → All P xs → All P (insert_number x xs)
  All-insert_number x [] p a = (p, tt)
  All-insert_number x (y ∷ ys) p a = elim (Bool-cases (leb x y)) [
    | inl e ↦ rw e (p, a)
    | inr e ↦ rw e (a.0, All-insert_number x ys p a.1)
  ]

insert_number-IsSorted : (x : ℕ) (xs : List ℕ) → IsSorted xs → IsSorted (insert_number x xs)
insert_number-IsSorted x [] s = (tt, tt)
insert_number-IsSorted x (y ∷ ys) s = elim (Bool-cases (leb x y)) [
  | inl e ↦ let le : x ≤ y = ground arith in rw e ((le, All-le_trans x y ys le s.0), s)
  | inr e ↦
      rw e (All-insert_number (λ z. y ≤ z) x ys (ground arith) s.0, insert_number-IsSorted x ys s.1)
]

length-insert_number : (x : ℕ) (xs : List ℕ) → length (insert_number x xs) ≡ suc (length xs)
length-insert_number x [] = refl
length-insert_number x (y ∷ ys) = ground (arith, length-insert_number x ys)

sort_numbers-IsSorted : (xs : List ℕ) → IsSorted (sort_numbers xs)
unfolding sort_numbers
sort_numbers-IsSorted [] = tt
sort_numbers-IsSorted (x ∷ xs) =
    insert_number-IsSorted x (sort_numbers xs) (sort_numbers-IsSorted xs)

length-sort_numbers : (xs : List ℕ) → length (sort_numbers xs) ≡ length xs
unfolding sort_numbers
length-sort_numbers [] = refl
length-sort_numbers (x ∷ xs) =
    omega (arith, length-insert_number x (sort_numbers xs), length-sort_numbers xs)

-- What holds of every sorted value holds of every sample, and the other way round.
module _ (P : ℕ → Type 0) where
  All-of-insert : (x : ℕ) (xs : List ℕ) → All P (insert_number x xs) → P x × All P xs
  All-of-insert x [] a = (a.0, tt)
  All-of-insert x (y ∷ ys) a = elim (Bool-cases (leb x y)) [
    | inl e ↦ let b : All P (x ∷ y ∷ ys) = rw e at a in (b.0, b.1)
    | inr e ↦
        let b : All P (y ∷ insert_number x ys) = rw e at a in
        let r = All-of-insert x ys b.1 in (r.0, (b.0, r.1))
  ]

  All-of-sort : (xs : List ℕ) → All P (sort_numbers xs) → All P xs
  unfolding sort_numbers
  All-of-sort [] a = tt
  All-of-sort (x ∷ xs) a = let r = All-of-insert x (sort_numbers xs) a in (r.0, All-of-sort xs r.1)

  All-sort : (xs : List ℕ) → All P xs → All P (sort_numbers xs)
  unfolding sort_numbers
  All-sort [] a = tt
  All-sort (x ∷ xs) a = All-insert_number P x (sort_numbers xs) a.0 (All-sort xs a.1)

-- A sorted list grows with the index.
get_elem?-mono :
    (xs : List ℕ) (i j a b : ℕ)
    → IsSorted xs
    → i ≤ j
    → get_elem? xs i ≡ some a
    → get_elem? xs j ≡ some b
    → a ≤ b
get_elem?-mono [] i j a b s h p q = cc
get_elem?-mono (x ∷ xs) zero zero a b s h p q = ground arith
get_elem?-mono (x ∷ xs) zero (suc j) a b s h p q =
    ground (arith, All-get_elem? (λ y. x ≤ y) xs j b s.0 q)
get_elem?-mono (x ∷ xs) (suc i) zero a b s h p q = absurd (omega arith)
get_elem?-mono (x ∷ xs) (suc i) (suc j) a b s h p q =
    get_elem?-mono xs i j a b s.1 (omega arith) p q

get_elem?-within : (xs : List ℕ) (i : ℕ) → i < length xs → (a : ℕ) × (get_elem? xs i ≡ some a)
get_elem?-within [] i h = absurd (omega arith)
get_elem?-within (x ∷ xs) zero h = (x, refl)
get_elem?-within (x ∷ xs) (suc i) h = get_elem?-within xs i (omega arith)

-- Every value of a sorted list is at most its last one.
IsSorted-le_last :
    (xs : List ℕ) (n b : ℕ)
    → IsSorted xs
    → length xs ≡ suc n
    → get_elem? xs n ≡ some b
    → All (λ v. v ≤ b) xs
IsSorted-le_last [] n b s l q = tt
IsSorted-le_last (x ∷ []) zero b s l q = (ground arith, tt)
IsSorted-le_last (x ∷ []) (suc n) b s l q = absurd (omega arith)
IsSorted-le_last (x ∷ y ∷ ys) zero b s l q = absurd (omega arith)
IsSorted-le_last (x ∷ y ∷ ys) (suc n) b s l q =
    let rest = IsSorted-le_last (y ∷ ys) n b s.1 (omega arith) q in
    (omega (arith, s.0.0, rest.0), rest)

IsSorted-ge_first :
    (xs : List ℕ) (a : ℕ) → IsSorted xs → get_elem? xs 0 ≡ some a → All (λ v. a ≤ v) xs
IsSorted-ge_first [] a s p = tt
IsSorted-ge_first (x ∷ xs) a s p =
    let e : x ≡ a = cc in subst (λ z. All (λ v. z ≤ v) (x ∷ xs)) e (le_refl x, s.0)

-- Five numbers that a histogram reports of samples: their count, and four values in order, the first
-- and the last of which bound every sample.
pub record Summarises (values : List ℕ) (h : Histogram) : Type 0 where
  pub low : ℕ
  pub median : ℕ
  pub high_decile : ℕ
  pub high : ℕ
  pub counted : h.count ≡ length values
  pub low_read : h.least ≡ some low
  pub median_read : h.p50 ≡ some median
  pub high_decile_read : h.p90 ≡ some high_decile
  pub high_read : h.greatest ≡ some high
  pub low_median : low ≤ median
  pub median_decile : median ≤ high_decile
  pub decile_high : high_decile ≤ high
  pub low_bound : All (λ v. low ≤ v) values
  pub high_bound : All (λ v. v ≤ high) values

-- Of a list of samples with at least one, the histogram has the count, no read of it is past the end,
-- the four values that it reports are in order, and they bound every sample.
pub histogram-Summarises :
    (values : List ℕ) → 0 < length values → Summarises values (histogram values)
unfolding histogram
histogram-Summarises values h = record {
  low = a.0;
  median = m.0;
  high_decile = d.0;
  high = z.0;
  counted = len;
  low_read = a.1;
  median_read = m.1;
  high_decile_read = d.1;
  high_read = z.1;
  low_median = get_elem?-mono sorted 0 (n * 5 / 10) a.0 m.0 order (omega arith) a.1 m.1;
  median_decile =
      get_elem?-mono sorted (n * 5 / 10) (n * 9 / 10) m.0 d.0 order (omega arith) m.1 d.1;
  decile_high =
      get_elem?-mono sorted (n * 9 / 10) (n - 1) d.0 z.0 order (omega (arith, len)) d.1 z.1;
  low_bound = All-of-sort (λ v. a.0 ≤ v) values (IsSorted-ge_first sorted a.0 order a.1);
  high_bound =
      All-of-sort (λ v. v ≤ z.0) values
        (IsSorted-le_last sorted (n - 1) z.0 order (omega (arith, len)) z.1);
}
  where
    sorted : List ℕ
    sorted = sort_numbers values

    n : ℕ
    n = length sorted

    order : IsSorted sorted
    order = sort_numbers-IsSorted values

    len : n ≡ length values
    len = length-sort_numbers values

    a : (v : ℕ) × (get_elem? sorted 0 ≡ some v)
    a = get_elem?-within sorted 0 (omega (arith, len))

    m : (v : ℕ) × (get_elem? sorted (n * 5 / 10) ≡ some v)
    m = get_elem?-within sorted (n * 5 / 10) (omega (arith, len))

    d : (v : ℕ) × (get_elem? sorted (n * 9 / 10) ≡ some v)
    d = get_elem?-within sorted (n * 9 / 10) (omega (arith, len))

    z : (v : ℕ) × (get_elem? sorted (n - 1) ≡ some v)
    z = get_elem?-within sorted (n - 1) (omega (arith, len))
