-- ===== src/Examples/Collisions.antt =====
-- Runs of the route that sends a duplicate commitment.
use clearbook.Prelude.{
  All, ℕ, ◌+◌, ◌≤◌, ◌≡◌, ◌⊎◌, refl, arith, true, false, none, some, [], ◌∷◌, length, le_refl,
  if◌then◌else◌,
}
use clearbook.Text.{Text, codes, text_eq}
use clearbook.Text.Assoc.{lookup, insert}
use clearbook.Text.Parts.{trim, trim_start, is_space, trim_end, before_unit}
use clearbook.Async.{resolved, rejected}
use clearbook.Reverts.{Thrown, base_error, decode_revert, decoded_name}
use clearbook.Collide.Attempt.{
  Clients, collide, reverted, expected_error, simulate_contract, write_contract, wait_for_receipt,
}
use clearbook.Collide.Attempt.Guarded.{IsGuarded, collide-IsGuarded}
use clearbook.Collide.Server.{
  Server, booted, limited, arrive, settled, caller, starts, joins, waits,
}
use clearbook.Collide.Server.Reach.{with_start, boots, arrives, settles}
use clearbook.Collide.Server.Limits.{count_in, Spaced, IsTimed, HoursApart}
use clearbook.Collide.Server.Bounded.{Reach-IsBounded}
use clearbook.Collide.Server.Retry.{limited-admits}

-- The contract refuses the call, and the transaction reverts in block 77.
abbrev refusal : Thrown
refusal =
    base_error false (some (record { error_name = some (codes "FactAlreadyUsed"); reason = none }))
      (codes "ContractFunctionExecutionError") [] []

abbrev clients : Clients
clients = record {
  account = resolved tt;
  simulation = λ h. rejected refusal;
  written = λ h. resolved (codes "0xaa");
  receipt = λ h hash. resolved (record { is_success = false; block_number = 77 });
}

collide-IsGuarded_example : IsGuarded clients [] (collide clients [])
collide-IsGuarded_example = collide-IsGuarded clients []

collided : collide clients [] ≡ (
  resolved (reverted (some expected_error) (codes "0xaa") 77),
  wait_for_receipt (codes "0xaa") ∷ write_contract ∷ simulate_contract ∷ [],
)
unfolding collide decode_revert decoded_name lookup text_eq
collided = refl

-- A caller, at 5, and another one that joins.
abbrev first_caller : Text
first_caller = codes "10.0.0.1"

abbrev after_first : Server
after_first = record {
  last_seen = (first_caller, 6) ∷ [];
  hour_window_start = 1;
  hour_count = 1;
  in_flight = true;
}

started : arrive first_caller 5 6 (booted 1) ≡ (starts, after_first)
unfolding arrive limited lookup insert
started = refl

joined : (arrive (codes "10.0.0.2") 7 7 after_first).0 ≡ joins
unfolding arrive limited lookup text_eq
joined = refl

told_to_wait : (arrive first_caller 8 8 after_first).0 ≡ waits 59998
unfolding arrive limited lookup text_eq
told_to_wait = refl

forwarded : caller (some (codes " 10.0.0.1 , 10.0.0.9")) ≡ first_caller
unfolding caller trim trim_start is_space trim_end before_unit
forwarded = refl

in_flight_example : (arrive first_caller 5 6 (booted 1)).1.in_flight ≡ true
unfolding arrive limited lookup
in_flight_example = refl

Reach-IsBounded_example :
    ((window : ℕ)
      → count_in window (with_start first_caller 5 6 (arrive first_caller 5 6 (booted 1)) []) ≤ 60)
    × All IsTimed (with_start first_caller 5 6 (arrive first_caller 5 6 (booted 1)) [])
    × HoursApart (with_start first_caller 5 6 (arrive first_caller 5 6 (booted 1)) [])
    × Spaced (with_start first_caller 5 6 (arrive first_caller 5 6 (booted 1)) [])
    × (length (with_start first_caller 5 6 (arrive first_caller 5 6 (booted 1)) [])
        ≡ 1 + (if (settled (arrive first_caller 5 6 (booted 1)).1).in_flight then 1 else 0))
Reach-IsBounded_example =
    Reach-IsBounded {start = 1} {clock = 6} {done = 1}
      {s = settled (arrive first_caller 5 6 (booted 1)).1}
      {past = with_start first_caller 5 6 (arrive first_caller 5 6 (booted 1)) []} (le_refl 1)
      (settles in_flight_example (arrives first_caller 5 6 (omega arith) (omega arith) boots))

waited : (limited first_caller 8 after_first).0 ≡ some 59998
unfolding limited lookup text_eq
waited = refl

limited-admits_example :
    ((limited first_caller 60007 (limited first_caller 8 after_first).1).0 ≡ none)
    ⊎ ((second : ℕ) × ((limited first_caller 60007 (limited first_caller 8 after_first).1).0
          ≡ some second)
        × ((limited first_caller
              (60007 + second)
              (limited first_caller 60007 (limited first_caller 8 after_first).1).1).0
            ≡ none))
limited-admits_example = limited-admits first_caller 8 59998 after_first waited
