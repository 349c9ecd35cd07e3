-- ===== src/Collide/Server.antt =====
-- `rateLimited` and `POST`, over the variables of the module. Times are in milliseconds.
pub mod Reach
pub mod Limits
pub mod Bounded
pub mod Retry
use clearbook.Prelude.{
  ℕ, ◌+◌, ◌-◌, Bool, true, false, not, ◌&&◌, Option, none, some, List, [], ◌∷◌, leb, ltb, ◌==◌,
  if◌then◌else◌,
}
use clearbook.Text.{Text, codes}
use clearbook.Text.Assoc.{Assoc, lookup, insert}
use clearbook.Text.Parts.{trim, before_unit}
use clearbook.Collide.Attempt.{
  Outcome, disabled, rate_limited, precondition_changed, relayer_error, reverted,
  mined_unexpectedly, pending,
}

-- PER_IP_COOLDOWN_MS, GLOBAL_HOURLY_CAP, and an hour.
abbrev pub per_ip_cooldown_ms : ℕ
per_ip_cooldown_ms = 60000

abbrev pub global_hourly_cap : ℕ
global_hourly_cap = 60

abbrev pub hour_ms : ℕ
hour_ms = 3600000

pub record Server : Type 0 where
  pub last_seen : Assoc ℕ
  pub hour_window_start : ℕ
  pub hour_count : ℕ
  -- `inFlight` is a promise, not null.
  pub in_flight : Bool

-- The module is loaded at `now`.
abbrev pub booted : ℕ → Server
booted now = record { last_seen = []; hour_window_start = now; hour_count = 0; in_flight = false }

abbrev pub with_window : ℕ → Server → Server
with_window now s =
    if ltb (s.hour_window_start + hour_ms) now
    then record s { hour_window_start = now; hour_count = 0 }
    else s

-- `prev && now - prev < PER_IP_COOLDOWN_MS`
abbrev pub cooling : Option ℕ → ℕ → Option ℕ
cooling none now = none
cooling (some prev) now =
    if not (prev == 0) && ltb now (prev + per_ip_cooldown_ms)
    then some (prev + per_ip_cooldown_ms - now)
    else none

abbrev pub wait_of : Text → ℕ → Server → Option ℕ
wait_of ip now s =
    if leb global_hourly_cap s.hour_count
    then some (s.hour_window_start + hour_ms - now)
    else cooling (lookup ip s.last_seen) now

unfoldable pub limited : Text → ℕ → Server → Option ℕ × Server
limited ip now s = let s' = with_window now s in (wait_of ip now s', s')

-- `request.headers.get('x-forwarded-for')?.split(',')[0]?.trim() || 'local'`
abbrev pub or_local : Text → Text
or_local [] = codes "local"
or_local (c ∷ cs) = c ∷ cs

unfoldable pub caller : Option Text → Text
unfolding trim before_unit
caller none = codes "local"
caller (some header) = or_local (trim (before_unit b',' header))

-- What a request comes to: no relayer, a wait, an attempt of its own, or the attempt in flight.
pub data Admission : Type 0 where
  no_relayer : Admission
  waits : ℕ → Admission
  starts joins : Admission

-- `if (!inFlight)`: an attempt is started, or the one in flight is joined.
abbrev pub start_or_join : Text → ℕ → Bool → Server → Admission × Server
start_or_join ip later true s = (joins, s)
start_or_join ip later false s = (
  starts,
  record s {
    hour_count = s.hour_count + 1;
    last_seen = insert ip later s.last_seen;
    in_flight = true;
  },
)

-- From `rateLimited` to `await inFlight`, where nothing is awaited: `now` and `later` are the two
-- readings of the clock.
abbrev pub admit : Text → ℕ → Option ℕ × Server → Admission × Server
admit ip later (some wait, s) = (waits wait, s)
admit ip later (none, s) = start_or_join ip later s.in_flight s

unfoldable pub arrive : Text → ℕ → ℕ → Server → Admission × Server
unfolding limited
arrive ip now later s = admit ip later (limited ip now s)

unfoldable pub post : Bool → Option Text → ℕ → ℕ → Server → Admission × Server
unfolding arrive caller
post has_relayer header now later s =
    if not has_relayer then (no_relayer, s) else arrive (caller header) now later s

-- `.finally(() => { inFlight = null; })`
abbrev pub settled : Server → Server
settled s = record s { in_flight = false }

-- The status of the answer, once the attempt has an outcome.
unfoldable pub status_code : Outcome → ℕ
status_code disabled = 503
status_code (rate_limited wait) = 429
status_code (reverted error hash block) = 200
status_code (pending hash) = 200
status_code (precondition_changed simulated) = 409
status_code relayer_error = 409
status_code (mined_unexpectedly hash) = 409
