-- ===== src/Proxy.antt =====
-- The proxy to the proof builder (frontend/app/api/prover/route.ts). What `fetch` gives for an address,
-- within the time that the route allows, is a parameter. The reply's body is the JSON that the source
-- writes, as a value.
pub mod Paths
pub mod Replies
use clearbook.Prelude.{
  ℕ, Bool, true, false, not, ◌&&◌, ◌||◌, Option, none, some, List, [], ◌∷◌, ◌++◌, if◌then◌else◌,
  every, is_empty, or_else, take, ◌==◌,
}
use clearbook.Text.{Text, codes, text_eq}
use clearbook.Text.Hex.{is_digit, is_hash}
use clearbook.Text.Parts.{trim}
use clearbook.Async.{Settled, resolved, rejected}

-- PROVER_FALLBACK
abbrev pub prover_fallback : Text
prover_fallback = codes "https://prover.cc3-testnet.creditcoin.network"

-- `replace(/\/$/, '')`
unfoldable pub without_slash : Text → Text
without_slash [] = []
without_slash (c ∷ []) = if c == b'/' then [] else c ∷ []
without_slash (c ∷ d ∷ cs) = c ∷ without_slash (d ∷ cs)

abbrev pub or_fallback : Text → Text
or_fallback [] = prover_fallback
or_fallback (c ∷ cs) = c ∷ cs

-- PROVER_URL, from the variable of the environment.
unfoldable pub prover_url : Option Text → Text
unfolding trim without_slash
prover_url variable = or_fallback (without_slash (trim (or_else variable [])))

-- What `fetch` or the reading of the text throws.
pub record FetchError : Type 0 where
  pub is_abort : Bool
  pub message : Text

-- The reply of the proof builder: `res.ok`, its status, and its text, which can fail to arrive.
pub record Upstream : Type 0 where
  pub ok : Bool
  pub status : ℕ
  pub text : Settled FetchError Text

pub data Body : Type 0 where
  bad_request : Text → Body
  prover_error : ℕ → Text → Body
  prover_timeout : Body
  prover_unreachable : Text → Body
  -- The text of the proof builder as it came.
  forwarded : Text → Body

pub record Reply : Type 0 where
  pub status : ℕ
  pub body : Body

-- The query parameters.
pub record Query : Type 0 where
  pub kind : Option Text
  pub chain_key : Option Text
  pub tx_hash : Option Text

-- What the route decides before anything is fetched.
pub data Route : Type 0 where
  refuses : Text → Route
  forwards : Text → Route

-- `/^\d+$/.test(chainKey)`
unfoldable pub is_chain_key : Text → Bool
unfolding is_digit
is_chain_key key = not (is_empty key) && every is_digit key

-- `!x || !test(x)`, the other way around: the parameter that is there and passes the test.
abbrev pub valid : (Text → Bool) → Option Text → Option Text
valid test none = none
valid test (some x) = if not (is_empty x) && test x then some x else none

abbrev pub is_kind : Text → Option Text → Bool
is_kind name none = false
is_kind name (some kind) = text_eq kind name

abbrev pub proof_route : Text → Option Text → Route
proof_route key none = refuses (codes "txHash must be 32 bytes of hex")
proof_route key (some hash) = forwards (codes "/api/v1/proof-by-tx/" ++ (key ++ b'/' ∷ hash))

abbrev pub keyed_route : Query → Option Text → Route
keyed_route query none = refuses (codes "chainKey required")
keyed_route query (some key) =
    if is_kind (codes "attested-height") query.kind
    then forwards (codes "/api/v1/attested-height/" ++ key)
    else if is_kind (codes "proof") query.kind
    then proof_route key (valid is_hash query.tx_hash)
    else refuses (codes "unknown kind")

unfoldable pub route : Query → Route
unfolding is_chain_key
route query = keyed_route query (valid is_chain_key query.chain_key)

abbrev pub on_text : Upstream → Settled FetchError Text → Settled FetchError Reply
on_text upstream (rejected e) = rejected e
on_text upstream (resolved text) = resolved (
    if not upstream.ok
    then record { status = 502; body = prover_error upstream.status (take 500 text) }
    else record { status = 200; body = forwarded text })

abbrev pub on_fetch : Settled FetchError Upstream → Settled FetchError Reply
on_fetch (rejected e) = rejected e
on_fetch (resolved upstream) = on_text upstream upstream.text

-- The catch block.
abbrev pub or_gone : Settled FetchError Reply → Reply
or_gone (resolved reply) = reply
or_gone (rejected e) = record {
  status = 504;
  body = if e.is_abort then prover_timeout else prover_unreachable e.message;
}

unfoldable pub forward : (Text → Settled FetchError Upstream) → Option Text → Text → Reply
unfolding prover_url
forward fetch variable path = or_gone (on_fetch (fetch (prover_url variable ++ path)))

abbrev pub serve : (Text → Settled FetchError Upstream) → Option Text → Route → Reply
serve fetch variable (refuses detail) = record { status = 400; body = bad_request detail }
serve fetch variable (forwards path) = forward fetch variable path

unfoldable pub get : (Text → Settled FetchError Upstream) → Option Text → Query → Reply
unfolding route forward
get fetch variable query = serve fetch variable (route query)
