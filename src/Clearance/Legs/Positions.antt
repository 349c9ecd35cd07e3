-- ===== src/Clearance/Legs/Positions.antt =====
-- A leg is named by the position of its log in the receipt, whichever logs before it are passed over.
use clearbook.Prelude.{
  ℕ, zero, suc, ◌+◌, ◌-◌, ◌≤◌, ◌≡◌, refl, ap, ◌∙◌, Bool, true, false, Option, none, some, List, [],
  ◌∷◌, arith, length, get_elem?, All, All-imp, if◌then◌else◌, not, ◌==◌,
}
use clearbook.Text.{Text, to_lower_case, text_eq}
use clearbook.Clearance.Legs.{
  Log, TransferLeg, leg_of, leg_by_topics, push, legs_from, transfer_legs, fact_id_of,
  erc20_transfer_topic, strip_0x,
}

module _ (identity : ℕ → ℕ → ℕ → ℕ → Text) (chain_key block_height tx_index : ℕ) where
  abbrev pub leg : ℕ → Log → Option TransferLeg
  leg = leg_of identity chain_key block_height tx_index

  -- A leg that was read at an index carries the index, and its identity is taken at the index.
  abbrev pub IsAt : ℕ → TransferLeg → Type 0
  IsAt i l = (l.log_index ≡ i) × (l.fact_id ≡ fact_id_of identity chain_key block_height tx_index i)

  picked :
      (b c : Bool) (i : ℕ) (l m : TransferLeg)
      → IsAt i m
      → (if not b then none else if not c then none else some m) ≡ some l
      → IsAt i l
  picked true true i l m h e = (cc h.0, cc h.1)
  picked true false i l m h e = cc
  picked false c i l m h e = cc

  leg_by_topics-IsAt :
      (i : ℕ) (log : Log) (topics : List Text) (l : TransferLeg)
      → leg_by_topics identity chain_key block_height tx_index i log topics ≡ some l
      → IsAt i l
  leg_by_topics-IsAt i log (t0 ∷ t1 ∷ t2 ∷ []) l e =
      picked (text_eq (to_lower_case t0) erc20_transfer_topic) (length (strip_0x log.bytes) == 64) i
        l _ (refl, refl) e
  leg_by_topics-IsAt i log [] l e = cc
  leg_by_topics-IsAt i log (t0 ∷ []) l e = cc
  leg_by_topics-IsAt i log (t0 ∷ t1 ∷ []) l e = cc
  leg_by_topics-IsAt i log (t0 ∷ t1 ∷ t2 ∷ t3 ∷ more) l e = cc

  leg-IsAt : (i : ℕ) (log : Log) (l : TransferLeg) → leg i log ≡ some l → IsAt i l
  unfolding leg_of
  leg-IsAt i log l e = leg_by_topics-IsAt i log log.topics l e

  -- The leg comes from the log at its index, counted from `start`.
  abbrev pub ComesFrom : ℕ → List Log → TransferLeg → Type 0
  ComesFrom start logs l =
      (log : Log) × (start ≤ l.log_index)
      × (get_elem? logs (l.log_index - start) ≡ some log)
      × (leg l.log_index log ≡ some l)

  next :
      (start : ℕ) (log : Log) (logs : List Log) (l : TransferLeg)
      → ComesFrom (start + 1) logs l
      → ComesFrom start (log ∷ logs) l
  next start log logs l h =
      let (at, low, here, found) = h in
      let k : l.log_index - start ≡ suc (l.log_index - (start + 1)) = omega arith in
      (at, omega arith, rw k here, found)

  pushed :
      (start : ℕ) (log : Log) (logs : List Log) (got : Option TransferLeg) (legs : List TransferLeg)
      → leg start log ≡ got
      → All (ComesFrom (start + 1) logs) legs
      → All (ComesFrom start (log ∷ logs)) (push identity chain_key block_height tx_index got legs)
  pushed start log logs none legs e h = All-imp _ _ legs (next start log logs) h
  pushed start log logs (some l) legs e h =
      let at = leg-IsAt start log l e in
      (
        (
          log,
          omega (arith, at.0),
          (let k : l.log_index - start ≡ 0 = omega (arith, at.0) in rw k refl),
          ap (λ i. leg i log) at.0 ∙ e,
        ),
        All-imp _ _ legs (next start log logs) h,
      )

  legs_from-ComesFrom :
      (start : ℕ) (logs : List Log)
      → All (ComesFrom start logs) (legs_from identity chain_key block_height tx_index start logs)
  unfolding legs_from
  legs_from-ComesFrom start [] = tt
  legs_from-ComesFrom start (log ∷ logs) =
      pushed start log logs (leg start log) _ refl (legs_from-ComesFrom (start + 1) logs)

  -- A leg that is read from a log of the receipt stands in the result.
  abbrev pub Stands : List TransferLeg → TransferLeg → Type 0
  Stands legs l = (k : ℕ) × (get_elem? legs k ≡ some l)

  Stands-push :
      (got : Option TransferLeg) (legs : List TransferLeg) (l : TransferLeg)
      → Stands legs l
      → Stands (push identity chain_key block_height tx_index got legs) l
  Stands-push none legs l h = h
  Stands-push (some m) legs l h = (suc h.0, h.1)

  legs_from-Stands :
      (start i : ℕ) (logs : List Log) (log : Log) (l : TransferLeg)
      → get_elem? logs i ≡ some log
      → leg (start + i) log ≡ some l
      → Stands (legs_from identity chain_key block_height tx_index start logs) l
  unfolding legs_from
  legs_from-Stands start i [] log l h e = cc
  legs_from-Stands start zero (first ∷ logs) log l h e =
      let here : start + 0 ≡ start = omega arith in
      let same : leg start first ≡ some l = cc in rw same (0, refl)
  legs_from-Stands start (suc i) (first ∷ logs) log l h e =
      Stands-push (leg start first) _ l
        (legs_from-Stands (start + 1) i logs log l h (ap (λ j. leg j log) (omega arith) ∙ e))

  -- In a receipt, every leg that the check finds carries the position of its log among all the logs of
  -- the receipt, is the one that this log gives at this position and has the identity of the position;
  -- and every log that gives a leg at its position has the leg in the result.
  pub transfer_legs-positions :
      (logs : List Log)
      → All
          (λ l.
            ComesFrom 0 logs l
            × (l.fact_id ≡ fact_id_of identity chain_key block_height tx_index l.log_index))
          (transfer_legs identity chain_key block_height tx_index logs)
        × ((i : ℕ) (log : Log) (l : TransferLeg)
            → get_elem? logs i ≡ some log
            → leg i log ≡ some l
            → Stands (transfer_legs identity chain_key block_height tx_index logs) l)
  unfolding transfer_legs
  transfer_legs-positions logs = (
    All-imp _ _ _ (λ l h. (h, (leg-IsAt l.log_index h.0 l h.3).1)) (legs_from-ComesFrom 0 logs),
    λ i log l h e. legs_from-Stands 0 i logs log l h (ap (λ j. leg j log) (omega arith) ∙ e),
  )
