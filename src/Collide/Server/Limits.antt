-- ===== src/Collide/Server/Limits.antt =====
-- The bounds that the two limits keep over every run of the server.
use clearbook.Prelude.{
  ◌⊎◌, ℕ, ◌+◌, ◌≤◌, ◌<◌, ◌≡◌, refl, Bool, true, false, Option, none, some, List, [], ◌∷◌, arith,
  ltb, ◌==◌, length, keep, All, All-imp, Bool-cases, inl, inr, le_refl, le_trans, sym, ◌∙◌,
}
use clearbook.Text.{Text, text_eq, text_eq_iff, text_eq_refl}
use clearbook.Text.Assoc.{lookup, insert, lookup-insert}
use clearbook.Collide.Server.{
  Server, with_window, cooling, start_or_join, hour_ms, per_ip_cooldown_ms,
}
use clearbook.Collide.Server.Reach.{Start, with_start}

-- The attempts that were counted in the hour from `window`.
abbrev pub count_in : ℕ → List Start → ℕ
count_in window past = length (keep (λ p. p.window == window) past)

count_in_later :
    (k window : ℕ) (past : List Start)
    → All (λ p. p.window ≤ k) past
    → k < window
    → count_in window past ≡ 0
count_in_later k window [] h lt = refl
count_in_later k window (p ∷ past) h lt = ground (arith, h.0, count_in_later k window past h.1 lt)

-- An attempt is admitted within the hour that it is counted in.
abbrev pub IsTimed : Start → Type 0
IsTimed p = (p.window ≤ p.asked) × (p.asked ≤ p.window + 3600000)

-- The hour of an attempt is the one from `window`, or it is over by then.
abbrev pub IsApartFrom : ℕ → Start → Type 0
IsApartFrom window p = (p.window ≡ window) ⊎ (p.window + 3600000 < window)

-- Two attempts are counted in one hour, or in hours of which the earlier is over when the later begins.
abbrev pub HoursApart : List Start → Type 0
HoursApart [] = Unit
HoursApart (p ∷ past) = All (IsApartFrom p.window) past × HoursApart past

-- The counter of the hour, and what was started in this hour and in those before.
pub record HourKept (s : Server) (past : List Start) : Type 0 where
  pub capped : s.hour_count ≤ 60
  pub counted : count_in s.hour_window_start past ≤ s.hour_count
  pub each : (window : ℕ) → count_in window past ≤ 60
  pub earlier : All (λ p. p.window ≤ s.hour_window_start) past
  pub timed : All IsTimed past
  pub recent : All (IsApartFrom s.hour_window_start) past
  pub apart : HoursApart past

pub with_window-HourKept :
    (now : ℕ) (s : Server) (past : List Start) → HourKept s past → HourKept (with_window now s) past
with_window-HourKept now s past h = elim (Bool-cases (ltb (s.hour_window_start + hour_ms) now)) [
  | inr same ↦ rw same h
  | inl over ↦ rw over (record {
    capped = omega arith;
    counted = omega (arith, count_in_later s.hour_window_start now past h.earlier (ground arith));
    each = h.each;
    earlier = All-imp _ _ past (λ p le. ground arith) h.earlier;
    timed = h.timed;
    recent = All-imp _ _ past (λ p le. inr (ground arith)) h.earlier;
    apart = h.apart;
  })
]

pub start_or_join-HourKept :
    (ip : Text) (now later : ℕ) (busy : Bool) (s : Server) (past : List Start)
    → s.hour_count < 60
    → s.hour_window_start ≤ now
    → now ≤ s.hour_window_start + 3600000
    → HourKept s past
    → HourKept
        (start_or_join ip later busy s).1
        (with_start ip now later (start_or_join ip later busy s) past)
start_or_join-HourKept ip now later true s past room from until h = h
start_or_join-HourKept ip now later false s past room from until h = record {
  capped = omega arith;
  counted = ground (arith, h.counted);
  each = λ window. ground (arith, h.counted, h.each window);
  earlier = (le_refl _, h.earlier);
  timed = ((from, until), h.timed);
  recent = (inl refl, h.recent);
  apart = (h.recent, h.apart);
}

-- One caller's attempts are a minute apart.
abbrev pub Spaced : List Start → Type 0
Spaced [] = Unit
Spaced (p ∷ past) = All (λ q. q.ip ≡ p.ip → q.at + 60000 ≤ p.at) past × Spaced past

-- The time that the server keeps for the caller of an attempt is that of the attempt, or later.
abbrev pub IsSeen : Server → Start → Type 0
IsSeen s p = (at : ℕ) × (lookup p.ip s.last_seen ≡ some at) × (p.at ≤ at) × (1 ≤ p.at)

cooling-apart :
    (now at : ℕ) (p : Start) (kept : Option ℕ)
    → kept ≡ some at
    → p.at ≤ at
    → 1 ≤ p.at
    → cooling kept now ≡ none
    → p.at + per_ip_cooldown_ms ≤ now
cooling-apart now at p none found le positive free = cc
cooling-apart now at p (some at') found le positive free = ground arith

IsSeen-apart :
    (ip : Text) (now : ℕ) (s : Server) (p : Start)
    → cooling (lookup ip s.last_seen) now ≡ none
    → IsSeen s p
    → p.ip ≡ ip
    → p.at + per_ip_cooldown_ms ≤ now
IsSeen-apart ip now s p free (at, found, le, positive) same =
    cooling-apart now at p (lookup p.ip s.last_seen) found le positive (rw same free)

IsSeen-insert :
    (ip : Text) (now later : ℕ) (s : Server) (p : Start)
    → now ≤ later
    → (p.ip ≡ ip → p.at ≤ now)
    → IsSeen s p
    → IsSeen (record s { last_seen = insert ip later s.last_seen }) p
IsSeen-insert ip now later s p le apart (at, found, bound, positive) =
    elim (Bool-cases (text_eq ip p.ip)) [
      | inl same ↦ (
        later,
        lookup-insert ip p.ip later s.last_seen ∙ rw same refl,
        le_trans (apart (sym ((text_eq_iff ip p.ip).0 same))) le,
        positive,
      )
      | inr other ↦ (at, lookup-insert ip p.ip later s.last_seen ∙ rw other found, bound, positive)
    ]

pub record SpacedKept (clock : ℕ) (s : Server) (past : List Start) : Type 0 where
  pub awake : 1 ≤ clock
  pub seen : All (IsSeen s) past
  pub spaced : Spaced past

pub start_or_join-SpacedKept :
    (ip : Text) (clock now later : ℕ) (busy : Bool) (s : Server) (past : List Start)
    → clock ≤ now
    → now ≤ later
    → cooling (lookup ip s.last_seen) now ≡ none
    → SpacedKept clock s past
    → SpacedKept later
        (start_or_join ip later busy s).1
        (with_start ip now later (start_or_join ip later busy s) past)
start_or_join-SpacedKept ip clock now later true s past le le' free k = record {
  awake = omega (arith, k.awake);
  seen = k.seen;
  spaced = k.spaced;
}
start_or_join-SpacedKept ip clock now later false s past le le' free k =
    let apart =
      λ (p : Start) (q : IsSeen s p) (same : p.ip ≡ ip). IsSeen-apart ip now s p free q same in
    record {
      awake = omega (arith, k.awake);
      seen = (
        (
          later,
          lookup-insert ip ip later s.last_seen ∙ rw (text_eq_refl ip) refl,
          le_refl later,
          omega (arith, k.awake),
        ),
        All-imp _ _ past
            (λ p q. IsSeen-insert ip now later s p le' (λ same. omega (arith, apart p q same)) q)
            k.seen,
      );
      spaced = (All-imp _ _ past (λ p q same. le_trans (apart p q same) le') k.seen, k.spaced);
    }
