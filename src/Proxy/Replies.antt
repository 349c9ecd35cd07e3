-- ===== src/Proxy/Replies.antt =====
-- What the route answers, and for which address of the builder.
use clearbook.Prelude.{
  ◌≡◌, ◌≢◌, refl, true, Option, none, some, [], ◌++◌, arith, every, Bool-cases, inl, inr,
}
use clearbook.Text.{Text}
use clearbook.Text.Parts.{is_space, trim, trim-blank}
use clearbook.Async.{Settled, resolved, rejected}
use clearbook.Proxy.{
  prover_fallback, without_slash, prover_url, FetchError, Upstream, Reply, forwarded, Query, Route,
  refuses, forwards, route, on_text, on_fetch, or_gone, forward, serve, get,
}

-- The reply is the text of the proof builder for `path`, which answered with success.
abbrev pub IsBuilders : (Text → Settled FetchError Upstream) → Option Text → Text → Reply → Type 0
IsBuilders fetch variable path reply =
    (upstream : Upstream) × (text : Text) × (fetch (prover_url variable ++ path)
      ≡ resolved upstream)
    × (upstream.ok ≡ true)
    × (upstream.text ≡ resolved text)
    × (reply.body ≡ forwarded text)

on_text-IsBuilders :
    (fetch : Text → Settled FetchError Upstream) (variable : Option Text) (path : Text)
    (upstream : Upstream) (answer : Settled FetchError Text)
    → fetch (prover_url variable ++ path) ≡ resolved upstream
    → upstream.text ≡ answer
    → (or_gone (on_text upstream answer)).status ≡ 200
    → IsBuilders fetch variable path (or_gone (on_text upstream answer))
on_text-IsBuilders fetch variable path upstream (rejected e) at text ok = absurd (omega arith)
on_text-IsBuilders fetch variable path upstream (resolved text) at same ok =
    elim (Bool-cases upstream.ok) [
      | inl good ↦ (upstream, text, at, good, same, rw good refl)
      | inr bad ↦ absurd (ground arith)
    ]

on_fetch-IsBuilders :
    (fetch : Text → Settled FetchError Upstream) (variable : Option Text) (path : Text)
    (answer : Settled FetchError Upstream)
    → fetch (prover_url variable ++ path) ≡ answer
    → (or_gone (on_fetch answer)).status ≡ 200
    → IsBuilders fetch variable path (or_gone (on_fetch answer))
on_fetch-IsBuilders fetch variable path (rejected e) at ok = absurd (omega arith)
on_fetch-IsBuilders fetch variable path (resolved upstream) at ok =
    on_text-IsBuilders fetch variable path upstream upstream.text at refl ok

serve-IsBuilders :
    (fetch : Text → Settled FetchError Upstream) (variable : Option Text) (r : Route)
    → (serve fetch variable r).status ≡ 200
    → (path : Text) × (r ≡ forwards path) × IsBuilders fetch variable path (serve fetch variable r)
unfolding forward
serve-IsBuilders fetch variable (refuses detail) ok = absurd (omega arith)
serve-IsBuilders fetch variable (forwards path) ok = (
  path,
  refl,
  on_fetch-IsBuilders fetch variable path (fetch (prover_url variable ++ path)) refl ok,
)

-- A reply with status 200 is the proof builder's own text, unchanged, for a path that the route
-- forwards, and the builder answered with success.
pub get-IsBuilders :
    (fetch : Text → Settled FetchError Upstream) (variable : Option Text) (query : Query)
    → (get fetch variable query).status ≡ 200
    → (path : Text) × (route query ≡ forwards path)
      × IsBuilders fetch variable path (get fetch variable query)
unfolding get
get-IsBuilders fetch variable query ok = serve-IsBuilders fetch variable (route query) ok

-- A variable that is not set, or is blank, gives the fallback, and the address is never empty.
prover_url-fallback :
    (variable : Text)
    → (prover_url none ≡ prover_fallback)
      × (every is_space variable ≡ true → prover_url (some variable) ≡ prover_fallback)
      × (prover_url (some variable) ≢ [])
unfolding prover_url
prover_url-fallback variable = (
  unfold trim without_slash in refl,
  λ h. rw (trim-blank variable h) (unfold without_slash in refl),
  ground arith,
)
