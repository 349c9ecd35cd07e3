-- ===== src/Examples/Proxies.antt =====
-- Queries to the proxy of the proof builder.
use clearbook.Prelude.{◌≡◌, refl, true, some, ◌++◌}
use clearbook.Text.{Text, codes, text_eq}
use clearbook.Text.Hex.{is_digit, is_hex, is_hash}
use clearbook.Text.Parts.{is_space, trim, trim_start, trim_end}
use clearbook.Async.{Settled, resolved}
use clearbook.Proxy.{
  prover_url, without_slash, FetchError, Upstream, Query, refuses, forwards, route, is_chain_key,
  get, forward,
}
use clearbook.Proxy.Paths.{IsEndpoint, route-IsEndpoint}
use clearbook.Proxy.Replies.{IsBuilders, get-IsBuilders}
use clearbook.Examples.{fact}

abbrev query : Query
query = record {
  kind = some (codes "proof");
  chain_key = some (codes "1");
  tx_hash = some (fact b'a');
}

abbrev path : Text
path = codes "/api/v1/proof-by-tx/1/" ++ fact b'a'

routed : route query ≡ forwards path
unfolding route is_chain_key is_digit is_hash is_hex text_eq
routed = refl

route-IsEndpoint_example : IsEndpoint query path
route-IsEndpoint_example = route-IsEndpoint query path routed

-- A chain key with a path in it goes nowhere.
refused :
    route (record query { chain_key = some (codes "1/../2") }) ≡ refuses (codes "chainKey required")
unfolding route is_chain_key is_digit
refused = refl

abbrev fetch : Text → Settled FetchError Upstream
fetch url = resolved (record { ok = true; status = 200; text = resolved (codes "{}") })

abbrev variable : Text
variable = codes " https://prover.example/ "

served : (get fetch (some variable) query).status ≡ 200
unfolding get route is_chain_key is_digit is_hash is_hex text_eq forward
served = refl

addressed : prover_url (some variable) ≡ codes "https://prover.example"
unfolding prover_url trim trim_start trim_end is_space without_slash
addressed = refl

get-IsBuilders_example :
    (path' : Text) × (route query ≡ forwards path')
    × IsBuilders fetch (some variable) path' (get fetch (some variable) query)
get-IsBuilders_example = get-IsBuilders fetch (some variable) query served
