-- ===== src/Proxy/Paths.antt =====
-- What reaches the proof builder: one of its two read-only endpoints, with nothing else in the path.
use clearbook.Prelude.{
  ℕ, ◌≡◌, ◌⊎◌, refl, ap, Bool, true, false, Option, none, some, [], ◌∷◌, ◌++◌, arith, every, All,
  Bool-cases, inl, inr, ◌==◌,
}
use clearbook.Text.{Text, codes, text_eq_iff}
use clearbook.Text.Hex.{is_digit, is_hex, is_hash}
use clearbook.Text.Parts.{split_unit, split_unit-before, split_unit-last}
use clearbook.Proxy.{
  Query, refuses, forwards, valid, is_kind, is_chain_key, proof_route, keyed_route, route,
}

-- A path of the interface: its segments, with the query parameters in them as they came.
abbrev pub IsEndpoint : Query → Text → Type 0
IsEndpoint query path =
    ((key : Text) × (query.kind ≡ some (codes "attested-height"))
      × (query.chain_key ≡ some key)
      × (is_chain_key key ≡ true)
      × (split_unit b'/' path ≡ [] ∷ codes "api" ∷ codes "v1" ∷ codes "attested-height" ∷ key ∷ []))
    ⊎ ((key : Text) × (hash : Text) × (query.kind ≡ some (codes "proof"))
        × (query.chain_key ≡ some key)
        × (is_chain_key key ≡ true)
        × (query.tx_hash ≡ some hash)
        × (is_hash hash ≡ true)
        × (split_unit b'/' path
            ≡ [] ∷ codes "api" ∷ codes "v1" ∷ codes "proof-by-tx" ∷ key ∷ hash ∷ []))

every-no_slash :
    (test : ℕ → Bool) (a : Text)
    → ((c : ℕ) → test c ≡ true → (c == b'/') ≡ false)
    → every test a ≡ true
    → All (λ c. (c == b'/') ≡ false) a
every-no_slash test [] free h = tt
every-no_slash test (c ∷ a) free h =
    (free c (ground arith), every-no_slash test a free (ground arith))

chain_key-no_slash : (key : Text) → is_chain_key key ≡ true → All (λ c. (c == b'/') ≡ false) key
unfolding is_chain_key is_digit
chain_key-no_slash key h =
    every-no_slash is_digit key (λ c d. unfold is_digit in ground arith) (ground arith)

hash-no_slash : (hash : Text) → is_hash hash ≡ true → All (λ c. (c == b'/') ≡ false) hash
unfolding is_hash is_hex is_digit
hash-no_slash [] h = cc
hash-no_slash (p ∷ []) h = cc
hash-no_slash (p ∷ q ∷ digits) h =
    let rest =
      every-no_slash is_hex digits (λ c d. unfold is_hex is_digit in ground arith) (ground arith) in
    (ground arith, (ground arith, rest))

valid-test :
    (test : Text → Bool) (o : Option Text) (x : Text)
    → valid test o ≡ some x
    → (o ≡ some x) × (test x ≡ true)
valid-test test none x h = cc
valid-test test (some y) x h = ground arith

is_kind-some : (name : Text) (o : Option Text) → is_kind name o ≡ true → o ≡ some name
is_kind-some name none h = cc
is_kind-some name (some kind) h = ap some ((text_eq_iff kind name).0 h)

proof_route-IsEndpoint :
    (query : Query) (key path : Text) (checked : Option Text)
    → query.kind ≡ some (codes "proof")
    → query.chain_key ≡ some key
    → is_chain_key key ≡ true
    → valid is_hash query.tx_hash ≡ checked
    → proof_route key checked ≡ forwards path
    → IsEndpoint query path
unfolding split_unit
proof_route-IsEndpoint query key path none kind at test checked e = cc
proof_route-IsEndpoint query key path (some hash) kind at test checked e =
    let (given, hashed) = valid-test is_hash query.tx_hash hash checked in
    let same : path ≡ codes "/api/v1/proof-by-tx/" ++ (key ++ b'/' ∷ hash) = cc in
    inr (
      key,
      hash,
      kind,
      at,
      test,
      given,
      hashed,
      rw
          (
            same,
            split_unit-before b'/' key hash (chain_key-no_slash key test),
            split_unit-last b'/' hash (hash-no_slash hash hashed),
          )
          refl,
    )

keyed_route-IsEndpoint :
    (query : Query) (path : Text) (checked : Option Text)
    → valid is_chain_key query.chain_key ≡ checked
    → keyed_route query checked ≡ forwards path
    → IsEndpoint query path
unfolding split_unit
keyed_route-IsEndpoint query path none checked e = cc
keyed_route-IsEndpoint query path (some key) checked e =
    let (given, test) = valid-test is_chain_key query.chain_key key checked in
    elim (Bool-cases (is_kind (codes "attested-height") query.kind)) [
      | inl height ↦
          let e' : forwards (codes "/api/v1/attested-height/" ++ key) ≡ forwards path =
            rw height at e in
          let same : path ≡ codes "/api/v1/attested-height/" ++ key = cc in
          inl (
            key,
            is_kind-some _ query.kind height,
            given,
            test,
            rw (same, split_unit-last b'/' key (chain_key-no_slash key test)) refl,
          )
      | inr other ↦ elim (Bool-cases (is_kind (codes "proof") query.kind)) [
        | inl proof ↦
            proof_route-IsEndpoint query key path (valid is_hash query.tx_hash)
              (is_kind-some _ query.kind proof) given test refl (rw (other, proof) at e)
        | inr neither ↦
            let e' : refuses (codes "unknown kind") ≡ forwards path = rw (other, neither) at e in cc
      ]
    ]

-- Every path that is forwarded is one of the two endpoints: split at the slashes, it reads back as the
-- endpoint's segments with the chain key and the hash as they were given, the key all decimal digits
-- and the hash 32 bytes of hexadecimal digits.
pub route-IsEndpoint :
    (query : Query) (path : Text) → route query ≡ forwards path → IsEndpoint query path
unfolding route
route-IsEndpoint query path e =
    keyed_route-IsEndpoint query path (valid is_chain_key query.chain_key) refl e
