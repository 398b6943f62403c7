-- ===== src/Identity/Resolve.antt =====
-- core/src/identity.rs: a profile resolves by its name, to what was registered.
use vurn_server.Prelude.{
  ℕ, ◌%◌, ◌<◌, ◌≡◌, refl, ◌∙◌, some, [], ◌∷◌, arith, length, ok, Option-cases, inl, inr,
}
use vurn_server.Prelude.Bytes.{Bytes}
use vurn_server.Crypto.{Crypto, CryptoLaws}
use vurn_server.Package.{nonce_len, encrypt_symmetric}
use vurn_server.Package.RoundTrip.{decrypt_symmetric-encrypt_symmetric}
use vurn_server.Identity.{
  IdentityBundle, kem_pk_len, encode_identity, decode_identity, encode, decode, decode_legacy,
}
use vurn_server.Identity.RoundTrip.{IsComplete, decode-encode, decode_identity-encode_identity}
use vurn_server.Identity.Profile.{
  profile_enc_salt, hmac_sha256, derive_encryption_key, prepare_registration, resolve_profile,
  prepare_registration_v9, resolve_profile_v9, search_index,
}

-- The bundle that a profile of the older format resolves to.
abbrev pub legacy : Bytes → Bytes → IdentityBundle
legacy public_key signing_public_key = record {
  ik_kem = public_key;
  ik_x = [];
  sig_pk = signing_public_key;
  spk_kem = [];
  spk_x = [];
  spk_sig = [];
}

decode_other : (x : ℕ) (bytes : Bytes) → 9 < x → decode (x ∷ bytes) ≡ decode_legacy (x ∷ bytes)
unfolding decode
decode_other x bytes h = ground arith

legacy_of :
    (bytes pk sig_pk : Bytes)
    → decode_identity bytes ≡ ok (pk, sig_pk)
    → decode_legacy bytes ≡ ok (legacy pk sig_pk)
unfolding decode_legacy
legacy_of bytes pk sig_pk h = rw h refl

decode-encode_identity :
    (pk sig_pk : Bytes)
    → length pk ≡ kem_pk_len
    → length sig_pk < 65536
    → decode (encode_identity pk sig_pk) ≡ ok (legacy pk sig_pk)
unfolding encode_identity
decode-encode_identity pk sig_pk h k =
    decode_other (length pk % 65536 % 256) _ (omega (arith, h))
    ∙ legacy_of _ pk sig_pk (decode_identity-encode_identity pk sig_pk (omega (arith, h)) k)

module _ {c : Crypto} (laws : CryptoLaws c) (to_lowercase : Bytes → Bytes) where
  derive_encryption_key_lem :
      (name : Bytes) → derive_encryption_key c name ≡ ok (hmac_sha256 c name profile_enc_salt)
  unfolding derive_encryption_key hmac_sha256
  derive_encryption_key_lem name = ground (arith, laws.hmac_length profile_enc_salt name)

  prepared :
      (nonce name : Bytes) (a : IdentityBundle) {index blob : Bytes}
      → prepare_registration_v9 c to_lowercase nonce name a ≡ ok (index, blob)
      → (index ≡ search_index c to_lowercase name)
        × (encrypt_symmetric c nonce (hmac_sha256 c (to_lowercase name) profile_enc_salt) (encode a)
            ≡ some blob)
  unfolding prepare_registration_v9
  prepared nonce name a e =
      let key = hmac_sha256 c (to_lowercase name) profile_enc_salt in
      let derived = derive_encryption_key_lem (to_lowercase name) in
      elim (Option-cases (encrypt_symmetric c nonce key (encode a))) [
        | inl x ↦ ground (arith, derived)
        | inr (body, x) ↦ (ground (arith, derived), ground (arith, derived))
      ]

  -- A complete bundle that was prepared under a name with a nonce of 12 bytes is found under the
  -- index of any name that is the same in lower case, and resolves by that name to the bundle.
  pub resolve_profile_v9-prepare_registration_v9 :
      (nonce name searched : Bytes) (a : IdentityBundle) {index blob : Bytes}
      → length nonce ≡ nonce_len
      → IsComplete a
      → to_lowercase searched ≡ to_lowercase name
      → prepare_registration_v9 c to_lowercase nonce name a ≡ ok (index, blob)
      → (index ≡ search_index c to_lowercase searched)
        × (resolve_profile_v9 c to_lowercase searched blob ≡ ok a)
  unfolding resolve_profile_v9
  resolve_profile_v9-prepare_registration_v9 nonce name searched a h i same e =
      let (found, sealed) = prepared nonce name a e in
      (
        rw same found,
        rw
            (
              same,
              derive_encryption_key_lem (to_lowercase name),
              decrypt_symmetric-encrypt_symmetric laws nonce _ (encode a) h sealed,
              decode-encode a i,
            )
            refl,
      )

  prepared_legacy :
      (nonce name pk sig_pk : Bytes) {index blob : Bytes}
      → prepare_registration c to_lowercase nonce name pk sig_pk ≡ ok (index, blob)
      → encrypt_symmetric c nonce
          (hmac_sha256 c (to_lowercase name) profile_enc_salt)
          (encode_identity pk sig_pk)
        ≡ some blob
  unfolding prepare_registration
  prepared_legacy nonce name pk sig_pk e =
      let key = hmac_sha256 c (to_lowercase name) profile_enc_salt in
      let derived = derive_encryption_key_lem (to_lowercase name) in
      elim (Option-cases (encrypt_symmetric c nonce key (encode_identity pk sig_pk))) [
        | inl x ↦ ground (arith, derived)
        | inr (body, x) ↦ ground (arith, derived)
      ]

  -- The same of the older format: both resolvers read it, and that of bundles leaves the fields of
  -- the prekey empty.
  resolve-prepare_registration :
      (nonce name searched pk sig_pk : Bytes) {index blob : Bytes}
      → length nonce ≡ nonce_len
      → length pk ≡ kem_pk_len
      → length sig_pk < 65536
      → to_lowercase searched ≡ to_lowercase name
      → prepare_registration c to_lowercase nonce name pk sig_pk ≡ ok (index, blob)
      → (resolve_profile c to_lowercase searched blob ≡ ok (pk, sig_pk))
        × (resolve_profile_v9 c to_lowercase searched blob ≡ ok (legacy pk sig_pk))
  unfolding resolve_profile resolve_profile_v9
  resolve-prepare_registration nonce name searched pk sig_pk h k l same e =
      let opened =
        decrypt_symmetric-encrypt_symmetric laws nonce _ (encode_identity pk sig_pk) h
          (prepared_legacy nonce name pk sig_pk e) in
      rw (same, derive_encryption_key_lem (to_lowercase name), opened)
        (rw
          (
            decode_identity-encode_identity pk sig_pk (omega (arith, k)) l,
            decode-encode_identity pk sig_pk k l,
          )
          (refl, refl))
