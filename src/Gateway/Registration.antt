-- ===== src/Gateway/Registration.antt =====
-- core/src/identity.rs and server/src/ws.rs: the way of a profile from the client that registers it
-- to a client that looks its name up.
use vurn_server.Prelude.{
  ◌≡◌, refl, sym, ap, ◌∙◌, none, some, List, [], ◌++◌, ltb, false, arith, length, take,
  length-append, take-append, drop-append, append-nil, ok,
}
use vurn_server.Prelude.Bytes.{Bytes, bytes_eq_refl}
use vurn_server.Crypto.{Crypto, CryptoLaws}
use vurn_server.Package.{nonce_len}
use vurn_server.Identity.{IdentityBundle}
use vurn_server.Identity.RoundTrip.{IsComplete}
use vurn_server.Identity.Profile.{
  search_salt, hmac_sha256, prepare_registration_v9, resolve_profile_v9, search_index,
}
use vurn_server.Identity.Resolve.{resolve_profile_v9-prepare_registration_v9}
use vurn_server.Gateway.{Gateway, profile_success}
use vurn_server.Gateway.Profile.{lookup_response}
use vurn_server.Gateway.Registry.{Entry, Records, view, register_entry}
use vurn_server.Gateway.Requests.{request_spec, serve_request, serve_request_refines}
use vurn_server.Gateway.Takeover.{Request, NonePresents, serve_all, takeover_refused}

take_all : (index : Bytes) → length index ≡ 32 → take 32 index ≡ index
take_all index h = ap (take 32) (sym (append-nil index)) ∙ take-append 32 index [] h

register_entry_free :
    (blob token : Bytes) (e : Entry)
    → e.0 ≡ none
    → register_entry blob token e ≡ (profile_success ++ token, (some blob, some token))
register_entry_free blob token (none, t) h = refl
register_entry_free blob token (some old, t) h = absurd cc

register_spec :
    (index blob token : Bytes) (f : Bytes → Entry)
    → length index ≡ 32
    → (f index).0 ≡ none
    → let (response, f1) = request_spec 1 (index ++ blob) token f in
      (response ≡ some (profile_success ++ token)) × (f1 index ≡ (some blob, some token))
unfolding request_spec
register_spec index blob token f h free =
    let long : ltb (length (index ++ blob)) 32 ≡ false = ground (arith, length-append index blob) in
    rw (long, take-append 32 index blob h, drop-append 32 index blob h)
      (rw (bytes_eq_refl index) (
        ap (λ (x : Bytes × Entry). some x.0) (register_entry_free blob token (f index) free),
        ap (λ (x : Bytes × Entry). x.1) (register_entry_free blob token (f index) free),
      ))

lookup_spec :
    (index : Bytes) (f : Bytes → Entry)
    → length index ≡ 32
    → (request_spec 2 index [] f).0 ≡ some (lookup_response (f index).0)
unfolding request_spec
lookup_spec index f h = rw (take_all index h) (ground arith)

module _ {D : Type 0} (r : Records D) (g : Gateway) where
  served :
      (index blob token : Bytes) (d : D)
      → length index ≡ 32
      → (view r d index).0 ≡ none
      → let (answer, d1) = serve_request r g 1 (index ++ blob) token d in
        (answer ≡ some (profile_success ++ token)) × (view r d1 index ≡ (some blob, some token))
  served index blob token d h free =
      let (answered, shown) = serve_request_refines r g 1 (index ++ blob) token d in
      let (response, kept) = register_spec index blob token (view r d) h free in
      (answered ∙ response, ap (λ (f : Bytes → Entry). f index) shown ∙ kept)

  looked_up :
      (index blob token : Bytes) (d : D)
      → length index ≡ 32
      → view r d index ≡ (some blob, some token)
      → (serve_request r g 2 index [] d).0 ≡ some (lookup_response (some blob))
  looked_up index blob token d h is =
      (serve_request_refines r g 2 index [] d).0
      ∙ lookup_spec index (view r d) h
      ∙ ap (λ (e : Entry). some (lookup_response e.0)) is

  module _ {c : Crypto} (laws : CryptoLaws c) (to_lowercase : Bytes → Bytes) where
    index_length :
        (searched : Bytes) {index : Bytes}
        → index ≡ search_index c to_lowercase searched
        → length index ≡ 32
    unfolding hmac_sha256
    index_length searched found = rw found (laws.hmac_length search_salt (to_lowercase searched))

    -- A complete bundle is prepared under a name with a nonce of 12 bytes, and registered with a
    -- gateway under the index of the name, where the network has no profile. The network answers
    -- look-ups in time with the record that was put last. Then the registration succeeds with its
    -- token. After any list of requests of which none is an update of the index with that token,
    -- a client that looks up a name that is the same in lower case, under the index of that name,
    -- is answered with the blob, and the blob resolves by that name to the bundle.
    pub registered_resolves :
        (nonce name searched token : Bytes) (a : IdentityBundle) (requests : List Request) (d : D)
        {index blob : Bytes}
        → length nonce ≡ nonce_len
        → IsComplete a
        → to_lowercase searched ≡ to_lowercase name
        → prepare_registration_v9 c to_lowercase nonce name a ≡ ok (index, blob)
        → (view r d index).0 ≡ none
        → NonePresents index token requests
        → let (answer, d1) = serve_request r g 1 (index ++ blob) token d in
          let (_, d2) = serve_all r g requests d1 in
          let (found, _) = serve_request r g 2 (search_index c to_lowercase searched) [] d2 in
          (answer ≡ some (profile_success ++ token))
          × (found ≡ some (lookup_response (some blob)))
          × (resolve_profile_v9 c to_lowercase searched blob ≡ ok a)
    registered_resolves nonce name searched token a requests d {index = index} {blob = blob} h i
          same e free others =
        let (found, resolved) =
          resolve_profile_v9-prepare_registration_v9 laws to_lowercase nonce name searched a h i
            same e in
        let long : length index ≡ 32 = index_length searched found in
        let (answered, shown) = served index blob token d long free in
        let d1 = (serve_request r g 1 (index ++ blob) token d).1 in
        let kept = takeover_refused r g requests d1 index shown others in
        (answered, rw (← found) (looked_up index blob token _ long kept), resolved)
