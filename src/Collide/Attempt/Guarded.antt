-- ===== src/Collide/Attempt/Guarded.antt =====
-- Nothing is broadcast unless the chain has just refused the call as `FactAlreadyUsed`.
use clearbook.Prelude.{
  ℕ, ◌+◌, ◌≤◌, ◌<◌, ◌≡◌, refl, Bool, true, false, Option, some, [], ◌∷◌, arith, Bool-cases, inl,
  inr,
}
use clearbook.Text.{Text, text_eq, text_eq_iff}
use clearbook.Async.{Settled, resolved, rejected}
use clearbook.Reverts.{Thrown, decode_revert}
use clearbook.Collide.Attempt.{
  expected_error, Outcome, disabled, rate_limited, precondition_changed, relayer_error, reverted,
  mined_unexpectedly, pending, Calls, simulate_contract, write_contract, wait_for_receipt, Clients,
  on_write, on_simulation, on_account, collide,
}

-- The transactions that were broadcast.
abbrev pub sends : Calls → ℕ
sends [] = 0
sends (simulate_contract ∷ calls) = sends calls
sends (write_contract ∷ calls) = sends calls + 1
sends (wait_for_receipt hash ∷ calls) = sends calls

-- The simulation was refused, with the expected error.
abbrev pub IsDoomed : Settled Thrown (Unit {0}) → Type 0
IsDoomed (resolved u) = ⊥
IsDoomed (rejected e) = (decode_revert e).name ≡ expected_error

-- The outcome says that a transaction is on its way or mined.
abbrev pub is_sent : Outcome → Bool
is_sent disabled = false
is_sent (rate_limited wait) = false
is_sent (precondition_changed simulated) = false
is_sent relayer_error = false
is_sent (reverted error hash block) = true
is_sent (mined_unexpectedly hash) = true
is_sent (pending hash) = true

-- An attempt from `calls` that ended in `result`: it broadcast at most one transaction, one only if the
-- call was doomed, and one if its outcome says so; and a refusal that it shows is the expected one.
abbrev pub IsGuarded : Clients → Calls → Settled Thrown Outcome × Calls → Type 0
IsGuarded clients calls result =
    (sends result.1 ≤ sends calls + 1)
    × (sends calls < sends result.1 → IsDoomed (clients.simulation calls))
    × ((o : Outcome) → result.0 ≡ resolved o → is_sent o ≡ true → sends result.1 ≡ sends calls + 1)
    × ((error : Option Text) (hash : Text) (block : ℕ)
        → result.0 ≡ resolved (reverted error hash block)
        → error ≡ some expected_error)

module _ (clients : Clients) (calls : Calls) where
  Guarded-on_write :
      (error : Text) (answer : Settled Thrown Text)
      → error ≡ expected_error
      → IsDoomed (clients.simulation calls)
      → IsGuarded clients calls
          (on_write clients error answer (write_contract ∷ simulate_contract ∷ calls))
  Guarded-on_write error (rejected e) same doomed = ground arith
  Guarded-on_write error (resolved hash) same doomed = ground (arith, same)

  Guarded-on_simulation :
      (answer : Settled Thrown (Unit {0}))
      → clients.simulation calls ≡ answer
      → IsGuarded clients calls (on_simulation clients answer (simulate_contract ∷ calls))
  Guarded-on_simulation (resolved u) at = ground arith
  Guarded-on_simulation (rejected e) at =
      let simulated = (decode_revert e).name in
      elim (Bool-cases (text_eq simulated expected_error)) [
        | inl same ↦
            let known = (text_eq_iff simulated expected_error).0 same in
            rw same (
              Guarded-on_write simulated (clients.written (simulate_contract ∷ calls)) known
                (rw at known))
        | inr other ↦ rw other (ground arith)
      ]

  Guarded-on_account :
      (answer : Settled Thrown (Unit {0}))
      → IsGuarded clients calls (on_account clients answer calls)
  Guarded-on_account (rejected e) = ground arith
  Guarded-on_account (resolved u) = Guarded-on_simulation (clients.simulation calls) refl

-- Whatever the clients answer or throw, an attempt broadcasts at most one transaction, and only when the
-- simulation right before it was refused as `FactAlreadyUsed`; an outcome that tells of a transaction
-- follows a broadcast, and one that shows a refusal shows `FactAlreadyUsed`.
pub collide-IsGuarded :
    (clients : Clients) (calls : Calls) → IsGuarded clients calls (collide clients calls)
unfolding collide
collide-IsGuarded clients calls = Guarded-on_account clients calls clients.account
