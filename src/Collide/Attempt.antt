-- ===== src/Collide/Attempt.antt =====
-- `collide`: one attempt. What the clients of the chain answer may depend on the calls made so far;
-- the texts for display are left out.
pub mod Guarded
use clearbook.Prelude.{ℕ, Bool, true, false, not, Option, none, some, List, [], ◌∷◌, if◌then◌else◌}
use clearbook.Text.{Text, codes, text_eq}
use clearbook.Async.{Settled, resolved, rejected, Exec, pure, throw, catch, after, ◌>>=◌, ◌>>◌}
use clearbook.Reverts.{Thrown, DecodedRevert, decode_revert}

-- EXPECTED_ERROR
abbrev pub expected_error : Text
expected_error = codes "FactAlreadyUsed"

pub data Outcome : Type 0 where
  disabled : Outcome
  rate_limited : ℕ → Outcome
  precondition_changed : Option Text → Outcome
  relayer_error : Outcome
  -- The error, the hash, and the block of the receipt.
  reverted : Option Text → Text → ℕ → Outcome
  mined_unexpectedly pending : Text → Outcome

pub record Receipt : Type 0 where
  pub is_success : Bool
  pub block_number : ℕ

pub data Call : Type 0 where
  simulate_contract write_contract : Call
  wait_for_receipt : Text → Call

-- The calls made, the last one first.
abbrev pub Calls : Type 0
Calls = List Call

pub record Clients : Type 0 where
  -- `privateKeyToAccount`, which throws on a malformed key.
  pub account : Settled Thrown (Unit {0})
  pub simulation : Calls → Settled Thrown (Unit {0})
  pub written : Calls → Settled Thrown Text
  pub receipt : Calls → Text → Settled Thrown Receipt

abbrev pub call : {A : Type 0} → Call → (Calls → Settled Thrown A) → Exec Thrown Calls A
call c answer calls = (answer calls, c ∷ calls)

abbrev pub mined : Text → Text → Receipt → Outcome
mined error hash receipt =
    if receipt.is_success
    then mined_unexpectedly hash
    else reverted (some error) hash receipt.block_number

module _ (clients : Clients) where
  -- Step 3: the outcome is read from the receipt.
  abbrev pub await_receipt : Text → Text → Exec Thrown Calls Outcome
  await_receipt error hash =
      catch
        (do
          receipt ← call (wait_for_receipt hash) (λ h. clients.receipt h hash)
          pure (mined error hash receipt))
        (λ e. pure (pending hash))

  -- Step 2: the transaction is sent.
  abbrev pub on_write : Text → Settled Thrown Text → Exec Thrown Calls Outcome
  on_write error (resolved hash) = await_receipt error hash
  on_write error (rejected e) = pure relayer_error

  abbrev pub broadcast : Text → Exec Thrown Calls Outcome
  broadcast error calls = on_write error (clients.written calls) (write_contract ∷ calls)

  -- Step 1: nothing is sent unless the chain refuses the call, and for the expected reason.
  abbrev pub on_simulation : Settled Thrown (Unit {0}) → Exec Thrown Calls Outcome
  on_simulation (resolved u) = pure (precondition_changed none)
  on_simulation (rejected e) =
      let simulated = (decode_revert e).name in
      if not (text_eq simulated expected_error)
      then pure (precondition_changed (some simulated))
      else broadcast simulated

  abbrev pub on_account : Settled Thrown (Unit {0}) → Exec Thrown Calls Outcome
  on_account (rejected e) calls = (rejected e, calls)
  on_account (resolved u) calls =
      on_simulation (clients.simulation calls) (simulate_contract ∷ calls)

  unfoldable pub collide : Exec Thrown Calls Outcome
  collide = on_account clients.account
