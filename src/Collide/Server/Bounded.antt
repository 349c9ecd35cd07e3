-- ===== src/Collide/Server/Bounded.antt =====
-- Over every run of the server: the cap of each hour, the wait of each caller, one attempt at a time.
use clearbook.Prelude.{
  ℕ, ◌+◌, ◌≤◌, ◌<◌, ◌≡◌, refl, Bool, true, false, Option, none, some, List, arith, ltb,
  if◌then◌else◌, length, All, Bool-cases, inl, inr, le_refl,
}
use clearbook.Text.{Text}
use clearbook.Text.Assoc.{lookup}
use clearbook.Collide.Server.{
  Server, with_window, cooling, wait_of, limited, start_or_join, admit, arrive, hour_ms,
}
use clearbook.Collide.Server.Reach.{Start, with_start, Reach, boots, arrives, settles}
use clearbook.Collide.Server.Limits.{
  HourKept, with_window-HourKept, start_or_join-HourKept, SpacedKept, start_or_join-SpacedKept,
  count_in, Spaced, IsTimed, HoursApart,
}

abbrev in_progress : Bool → ℕ
in_progress busy = if busy then 1 else 0

record Kept (clock : ℕ) (s : Server) (past : List Start) (done : ℕ) : Type 0 where
  hour : HourKept s past
  apart : SpacedKept clock s past
  single : length past ≡ done + in_progress s.in_flight
  begun : s.hour_window_start ≤ clock

with_window-SpacedKept :
    (clock now : ℕ) (s : Server) (past : List Start)
    → SpacedKept clock s past
    → SpacedKept clock (with_window now s) past
with_window-SpacedKept clock now s past k =
    elim (Bool-cases (ltb (s.hour_window_start + hour_ms) now)) [
      | inr same ↦ rw same k
      | inl over ↦ rw over (record { awake = k.awake; seen = k.seen; spaced = k.spaced })
    ]

with_window-Kept :
    (clock now done : ℕ) (s : Server) (past : List Start)
    → clock ≤ now
    → Kept clock s past done
    → Kept now (with_window now s) past done
with_window-Kept clock now done s past le k = record {
  hour = with_window-HourKept now s past k.hour;
  apart = with_window-SpacedKept now now s past (record {
    awake = omega (arith, k.apart.awake);
    seen = k.apart.seen;
    spaced = k.apart.spaced;
  });
  single = ground (arith, k.single);
  begun = ground (arith, k.begun);
}

wait_of-none :
    (ip : Text) (now : ℕ) (s : Server)
    → wait_of ip now s ≡ none
    → (s.hour_count < 60) × (cooling (lookup ip s.last_seen) now ≡ none)
wait_of-none ip now s free = ground arith

start_or_join-single :
    (ip : Text) (now later done : ℕ) (busy : Bool) (s : Server) (past : List Start)
    → s.in_flight ≡ busy
    → length past ≡ done + in_progress s.in_flight
    → length (with_start ip now later (start_or_join ip later busy s) past)
      ≡ done + in_progress (start_or_join ip later busy s).1.in_flight
start_or_join-single ip now later done true s past at h = h
start_or_join-single ip now later done false s past at h = ground arith

start_or_join-begun :
    (ip : Text) (later : ℕ) (busy : Bool) (s : Server)
    → s.hour_window_start ≤ later
    → (start_or_join ip later busy s).1.hour_window_start ≤ later
start_or_join-begun ip later true s h = h
start_or_join-begun ip later false s h = h

-- A request is counted in an hour that is not over.
with_window-until : (now : ℕ) (s : Server) → now ≤ (with_window now s).hour_window_start + 3600000
with_window-until now s = ground arith

admit-Kept :
    (ip : Text) (now later done : ℕ) (wait : Option ℕ) (s : Server) (past : List Start)
    → now ≤ later
    → now ≤ s.hour_window_start + 3600000
    → wait_of ip now s ≡ wait
    → Kept now s past done
    → Kept later
        (admit ip later (wait, s)).1
        (with_start ip now later (admit ip later (wait, s)) past)
        done
admit-Kept ip now later done (some w) s past le until e k = record {
  hour = k.hour;
  apart = record {
    awake = omega (arith, k.apart.awake);
    seen = k.apart.seen;
    spaced = k.apart.spaced;
  };
  single = k.single;
  begun = omega (arith, k.begun);
}
admit-Kept ip now later done none s past le until e k =
    let (room, free) = wait_of-none ip now s e in
    let from = k.begun in
    record {
      hour = start_or_join-HourKept ip now later s.in_flight s past room from until k.hour;
      apart =
          start_or_join-SpacedKept ip now now later s.in_flight s past (le_refl now) le free
            k.apart;
      single = start_or_join-single ip now later done s.in_flight s past refl k.single;
      begun = start_or_join-begun ip later s.in_flight s (omega (arith, k.begun));
    }

arrive-Kept :
    (ip : Text) (clock now later done : ℕ) (s : Server) (past : List Start)
    → clock ≤ now
    → now ≤ later
    → Kept clock s past done
    → Kept later
        (arrive ip now later s).1
        (with_start ip now later (arrive ip now later s) past)
        done
unfolding arrive limited
arrive-Kept ip clock now later done s past le le' k =
    admit-Kept ip now later done _ (with_window now s) past le' (with_window-until now s) refl
      (with_window-Kept clock now done s past le k)

Reach-Kept :
    {start clock done : ℕ} {s : Server} {past : List Start}
    → 1 ≤ start
    → Reach start clock s past done
    → Kept clock s past done
Reach-Kept h boots = record {
  hour = record {
    capped = omega arith;
    counted = le_refl 0;
    each = λ w. omega arith;
    earlier = tt;
    timed = tt;
    recent = tt;
    apart = tt;
  };
  apart = record { awake = h; seen = tt; spaced = tt };
  single = refl;
  begun = le_refl _;
}
Reach-Kept h (arrives ip now later le le' r) =
    arrive-Kept ip _ now later _ _ _ le le' (Reach-Kept h r)
Reach-Kept h (settles busy r) =
    let k = Reach-Kept h r in
    record {
      hour = record {
        capped = k.hour.capped;
        counted = k.hour.counted;
        each = k.hour.each;
        earlier = k.hour.earlier;
        timed = k.hour.timed;
        recent = k.hour.recent;
        apart = k.hour.apart;
      };
      apart = record { awake = k.apart.awake; seen = k.apart.seen; spaced = k.apart.spaced };
      single = ground (arith, k.single);
      begun = k.begun;
    }

-- Whatever requests arrive, from whatever callers, and whenever attempts settle: each attempt is counted
-- in an hour, 3,600,000 ms from the start of the hour, in which it was admitted; no more than sixty are
-- counted in one; and of two hours the earlier is over when the later begins. The attempts of one
-- caller are at least 60,000 ms apart, and at most one attempt is in flight.
pub Reach-IsBounded :
    {start clock done : ℕ} {s : Server} {past : List Start}
    → 1 ≤ start
    → Reach start clock s past done
    → ((window : ℕ) → count_in window past ≤ 60)
      × All IsTimed past
      × HoursApart past
      × Spaced past
      × (length past ≡ done + (if s.in_flight then 1 else 0))
Reach-IsBounded h r =
    let k = Reach-Kept h r in (k.hour.each, k.hour.timed, k.hour.apart, k.apart.spaced, k.single)
