-- ===== src/Tests/Names.antt =====
-- A profile from its registration to its resolution, at a concrete input.
use vurn_server.Prelude.{
  ◌+◌, ◌≡◌, refl, some, none, List, [], ◌∷◌, ◌++◌, ◌&&◌, leb, if◌then◌else◌, replicate, ok,
}
use vurn_server.Prelude.Bytes.{Bytes, bytes_eq}
use vurn_server.Prelude.SortedMap.{get}
use vurn_server.Identity.{encode}
use vurn_server.Identity.Profile.{
  profile_enc_salt, hmac_sha256, derive_encryption_key, prepare_registration_v9, resolve_profile_v9,
  search_index,
}
use vurn_server.Package.{encrypt_symmetric}
use vurn_server.Gateway.{profile_success}
use vurn_server.Gateway.Profile.{lookup_response}
use vurn_server.Gateway.Registry.{view}
use vurn_server.Gateway.Requests.{serve_request}
use vurn_server.Gateway.Takeover.{Request, NonePresents, serve_all}
use vurn_server.Gateway.Registration.{registered_resolves}
use vurn_server.Tests.Toy.{fit, toy, toy-CryptoLaws}
use vurn_server.Tests.Core.{nonce, identity_of, identity-IsComplete}
use vurn_server.Tests.Gateway.{start}
use vurn_server.Tests.Profiles.{tree_records}

-- The lower case of a name in ASCII.
abbrev lower : Bytes → Bytes
lower [] = []
lower (b ∷ bytes) = (if leb 65 b && leb b 90 then b + 32 else b) ∷ lower bytes

-- "Bob", and "bob"
abbrev registered_name : Bytes
registered_name = 66 ∷ 111 ∷ 98 ∷ []

abbrev searched_name : Bytes
searched_name = 98 ∷ 111 ∷ 98 ∷ []

abbrev index : Bytes
index = search_index toy lower searched_name

abbrev blob : Bytes
blob = nonce ++ (fit 16 (hmac_sha256 toy searched_name profile_enc_salt) ++ encode (identity_of 1))

prepared :
    prepare_registration_v9 toy lower nonce registered_name (identity_of 1) ≡ ok (index, blob)
unfolding prepare_registration_v9 derive_encryption_key hmac_sha256 encrypt_symmetric fit
prepared = refl

-- The token that the gateway draws
abbrev token : Bytes
token = replicate 32 9

-- Another client registers the name too, and then presents a token of its own.
abbrev attempts : List Request
attempts =
    record { opcode = 1; payload = index ++ (1 ∷ []); random = 8 ∷ [] }
    ∷ record { opcode = 4; payload = index ++ (replicate 32 2 ++ (1 ∷ [])); random = [] }
    ∷ []

none_presents : NonePresents index token attempts
unfolding bytes_eq hmac_sha256 fit
none_presents = (refl, (refl, tt))

free : (view tree_records [] index).0 ≡ none
unfolding view get
free = refl

registered_resolves_example :
    let (answer, d1) = serve_request tree_records start 1 (index ++ blob) token [] in
    let (_, d2) = serve_all tree_records start attempts d1 in
    let (found, _) = serve_request tree_records start 2 index [] d2 in
    (answer ≡ some (profile_success ++ token))
    × (found ≡ some (lookup_response (some blob)))
    × (resolve_profile_v9 toy lower searched_name blob ≡ ok (identity_of 1))
registered_resolves_example =
    registered_resolves tree_records start toy-CryptoLaws lower nonce registered_name searched_name
      token (identity_of 1) attempts [] refl (identity-IsComplete 1) refl prepared free
      none_presents
