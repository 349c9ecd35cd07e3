-- ===== src/Worker/Discover.antt =====
-- Chain discovery (worker/src/discover.ts). What the ChainInfo precompile says is a parameter.
use clearbook.Prelude.{ℕ, Bool, Option, none, some, List, [], ◌∷◌, ◌==◌, if◌then◌else◌, find}
use clearbook.Text.{Text}
use clearbook.Async.{Settled, resolved, rejected}

pub record DiscoveredChain : Type 0 where
  pub chain_key : ℕ
  pub chain_id : ℕ
  pub chain_encoding : ℕ
  pub chain_name_raw : Text

-- `ChainDiscoveryError`: the call failed, no chain is supported, or the one asked for is not.
pub data DiscoveryError : Type 0 where
  call_failed : Text → DiscoveryError
  no_chains : DiscoveryError
  not_supported : ℕ → List DiscoveredChain → DiscoveryError

abbrev pub discovered_in :
    Option (List DiscoveredChain) → Settled DiscoveryError (List DiscoveredChain)
discovered_in none = rejected no_chains
discovered_in (some []) = rejected no_chains
discovered_in (some (c ∷ chains)) = resolved (c ∷ chains)

unfoldable pub discover_chains :
    Settled Text (Option (List DiscoveredChain)) → Settled DiscoveryError (List DiscoveredChain)
discover_chains (rejected message) = rejected (call_failed message)
discover_chains (resolved chains) = discovered_in chains

abbrev pub matched :
    ℕ → List DiscoveredChain → Option DiscoveredChain → Settled DiscoveryError DiscoveredChain
matched chain_id chains none = rejected (not_supported chain_id chains)
matched chain_id chains (some c) = resolved c

abbrev pub match_in :
    ℕ → Settled DiscoveryError (List DiscoveredChain) → Settled DiscoveryError DiscoveredChain
match_in chain_id (rejected e) = rejected e
match_in chain_id (resolved chains) =
    matched chain_id chains (find (λ c. c.chain_id == chain_id) chains)

unfoldable pub resolve_chain_key :
    Settled Text (Option (List DiscoveredChain)) → ℕ → Settled DiscoveryError DiscoveredChain
unfolding discover_chains
resolve_chain_key supported chain_id = match_in chain_id (discover_chains supported)

-- The height and whether any attestation exists.
pub record Attested : Type 0 where
  pub height : ℕ
  pub exists : Bool

-- `{ height: h.exists ? h.height : 0, exists: h.exists }`
unfoldable pub latest_attested_height : Settled Text Attested → Settled Text Attested
latest_attested_height (rejected message) = rejected message
latest_attested_height (resolved h) =
    resolved (record { height = if h.exists then h.height else 0; exists = h.exists })
