-- ===== src/Collide/Server/Reach.antt =====
-- What can happen to the server: requests arrive, by any callers and at any times that do not go back,
-- and the attempt in flight settles. The route runs on one thread, so that nothing comes between the
-- two readings of the clock of one request.
use clearbook.Prelude.{ℕ, ◌+◌, ◌≤◌, ◌≡◌, true, List, [], ◌∷◌}
use clearbook.Text.{Text}
use clearbook.Collide.Server.{
  Server, booted, Admission, no_relayer, waits, starts, joins, arrive, settled,
}

-- An attempt that was started: its caller, the time at which its request was admitted, the time that is
-- kept for it, and the start of the hour that it was counted in.
pub record Start : Type 0 where
  pub ip : Text
  pub asked : ℕ
  pub at : ℕ
  pub window : ℕ

-- The attempts after a request.
abbrev pub with_start : Text → ℕ → ℕ → Admission × Server → List Start → List Start
with_start ip now later (starts, s) past =
    record { ip = ip; asked = now; at = later; window = s.hour_window_start } ∷ past
with_start ip now later (joins, s) past = past
with_start ip now later (waits wait, s) past = past
with_start ip now later (no_relayer, s) past = past

-- From a boot at `start`: the time, the server, the attempts started so far, the last one first, and
-- how many have settled.
pub data Reach (start : ℕ) : ℕ → Server → List Start → ℕ → Type 0 where
  boots : Reach start start (booted start) [] 0
  arrives :
      {clock done : ℕ} {s : Server} {past : List Start} (ip : Text) (now later : ℕ)
      → clock ≤ now
      → now ≤ later
      → Reach start clock s past done
      → Reach start later
          (arrive ip now later s).1
          (with_start ip now later (arrive ip now later s) past)
          done
  settles :
      {clock done : ℕ} {s : Server} {past : List Start}
      → s.in_flight ≡ true
      → Reach start clock s past done
      → Reach start clock (settled s) past (done + 1)
