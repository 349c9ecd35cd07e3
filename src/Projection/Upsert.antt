-- ===== src/Projection/Upsert.antt =====
-- Writing records by key into a list, in place where the key is there and at the end where it is new:
-- writing a batch again changes nothing.
use clearbook.Prelude.{
  ◌≡◌, refl, ap, ◌∙◌, Bool, true, false, List, [], ◌∷◌, ◌++◌, arith, if◌then◌else◌, exists,
  Bool-cases, inl, inr, Option, some, find,
}
use clearbook.Text.{Text, text_eq, text_eq_iff}

module _ {A : Type 0} (key : A → Text) where
  unfoldable pub upsert : A → List A → List A
  upsert r [] = r ∷ []
  upsert r (x ∷ xs) = if text_eq (key x) (key r) then r ∷ xs else x ∷ upsert r xs

  unfoldable pub upsert_all : List A → List A → List A
  unfolding upsert
  upsert_all [] m = m
  upsert_all (r ∷ rs) m = upsert_all rs (upsert r m)

  abbrev has_key : Text → List A → Bool
  has_key k = exists (λ x. text_eq (key x) k)

  upsert-again : (r s : A) (m : List A) → key r ≡ key s → upsert s (upsert r m) ≡ upsert s m
  unfolding upsert
  upsert-again r s [] e = ground (arith, text_eq_iff (key r) (key s))
  upsert-again r s (x ∷ m) e = ground (arith, text_eq_iff (key r) (key s), upsert-again r s m e)

  upsert_comm :
      (r s : A) (m : List A)
      → text_eq (key r) (key s) ≡ false
      → has_key (key r) m ≡ true
      → upsert s (upsert r m) ≡ upsert r (upsert s m)
  unfolding upsert
  upsert_comm r s [] n h = cc
  upsert_comm r s (x ∷ m) n h = ground (
    arith,
    text_eq_iff (key x) (key r),
    text_eq_iff (key x) (key s),
    text_eq_iff (key r) (key s),
    upsert_comm r s m n,
  )

  has_key-upsert :
      (r : A) (k : Text) (m : List A) → has_key k m ≡ true → has_key k (upsert r m) ≡ true
  unfolding upsert
  has_key-upsert r k [] h = cc
  has_key-upsert r k (x ∷ m) h = ground (
    arith,
    text_eq_iff (key x) (key r),
    text_eq_iff (key x) k,
    text_eq_iff (key r) k,
    has_key-upsert r k m,
  )

  has_key_self : (r : A) (m : List A) → has_key (key r) (upsert r m) ≡ true
  unfolding upsert
  has_key_self r [] = ground (arith, text_eq_iff (key r) (key r))
  has_key_self r (x ∷ m) = ground (arith, text_eq_iff (key r) (key r), has_key_self r m)

  has_key-upsert_all :
      (k : Text) (l m : List A) → has_key k m ≡ true → has_key k (upsert_all l m) ≡ true
  unfolding upsert_all
  has_key-upsert_all k [] m h = h
  has_key-upsert_all k (r ∷ l) m h = has_key-upsert_all k l (upsert r m) (has_key-upsert r k m h)

  -- A record that the batch writes again may as well not have been written.
  overwritten :
      (r : A) (l m : List A)
      → has_key (key r) l ≡ true
      → has_key (key r) m ≡ true
      → upsert_all l (upsert r m) ≡ upsert_all l m
  unfolding upsert_all
  overwritten r [] m h k = cc
  overwritten r (s ∷ l) m h k = elim (Bool-cases (text_eq (key r) (key s))) [
    | inl same ↦ ap (upsert_all l) (upsert-again r s m ((text_eq_iff (key r) (key s)).0 same))
    | inr differs ↦
        let later : has_key (key r) l ≡ true =
          ground (arith, text_eq_iff (key r) (key s), text_eq_iff (key s) (key r)) in
        ap (upsert_all l) (upsert_comm r s m differs k)
        ∙ overwritten r l (upsert s m) later (has_key-upsert s (key r) m k)
  ]

  abbrev at : Text → List A → Option A
  at k = find (λ x. text_eq (key x) k)

  at-upsert_self : (r : A) (m : List A) → at (key r) (upsert r m) ≡ some r
  unfolding upsert
  at-upsert_self r [] = ground (arith, text_eq_iff (key r) (key r))
  at-upsert_self r (x ∷ m) = ground (arith, text_eq_iff (key r) (key r), at-upsert_self r m)

  at-upsert_ne :
      (r : A) (k : Text) (m : List A) → text_eq (key r) k ≡ false → at k (upsert r m) ≡ at k m
  unfolding upsert
  at-upsert_ne r k [] n = ground arith
  at-upsert_ne r k (x ∷ m) n = ground (
    arith,
    text_eq_iff (key x) (key r),
    text_eq_iff (key x) k,
    text_eq_iff (key r) k,
    at-upsert_ne r k m n,
  )

  at-upsert_all : (k : Text) (l m : List A) → has_key k l ≡ false → at k (upsert_all l m) ≡ at k m
  unfolding upsert_all
  at-upsert_all k [] m h = refl
  at-upsert_all k (r ∷ l) m h =
      at-upsert_all k l (upsert r m) (ground arith) ∙ at-upsert_ne r k m (ground arith)

  -- Writing the record that stands under its key changes nothing.
  upsert-at : (r : A) (m : List A) → at (key r) m ≡ some r → upsert r m ≡ m
  unfolding upsert
  upsert-at r [] h = cc
  upsert-at r (x ∷ m) h = ground (arith, upsert-at r m)

  pub upsert_all_idem : (l m : List A) → upsert_all l (upsert_all l m) ≡ upsert_all l m
  unfolding upsert_all
  upsert_all_idem [] m = refl
  upsert_all_idem (r ∷ l) m =
      let n = upsert_all l (upsert r m) in
      elim (Bool-cases (has_key (key r) l)) [
        | inl later ↦
            overwritten r l n later (has_key-upsert_all (key r) l (upsert r m) (has_key_self r m))
            ∙ upsert_all_idem l (upsert r m)
        | inr last ↦
            let stands : at (key r) n ≡ some r =
              at-upsert_all (key r) l (upsert r m) last ∙ at-upsert_self r m in
            ap (upsert_all l) (upsert-at r n stands) ∙ upsert_all_idem l (upsert r m)
      ]

  pub upsert_all-append : (l k m : List A) → upsert_all (l ++ k) m ≡ upsert_all k (upsert_all l m)
  unfolding upsert_all
  upsert_all-append [] k m = refl
  upsert_all-append (r ∷ l) k m = upsert_all-append l k (upsert r m)
