-- ===== src/Package/RoundTrip.antt =====
-- core/src/lib.rs: what was encrypted decrypts, and both sides compute one fingerprint.
use Prim.Native.Nat.{Ordering}
use vurn_server.Prelude.{
  ◌%◌, ◌≤◌, ◌<◌, ◌≡◌, refl, ap, some, [], ◌++◌, arith, length, length-append, take-append,
  drop-append, ok, Option-cases, inl, inr,
}
use vurn_server.Prelude.Bytes.{
  Bytes, u16_le, u16_from_le-u16_le, bytes_compare, bytes_compare-eq, bytes_compare-flip,
}
use vurn_server.Crypto.{Crypto, CryptoLaws}
use vurn_server.Package.{
  nonce_len, tag_len, kem_ct_len, secret_key_len, serialize_package, deserialize_package, encrypt,
  decrypt, decrypt_package, encrypt_symmetric, decrypt_symmetric, compute_fingerprint, groups,
}

deserialize_package_framed :
    (kem_ct nonce payload : Bytes)
    → length kem_ct < 65536
    → length nonce ≡ nonce_len
    → tag_len ≤ length payload
    → deserialize_package (u16_le (length kem_ct) ++ (kem_ct ++ (nonce ++ payload)))
      ≡ ok (record { kem_ct = kem_ct; nonce = nonce; payload = payload })
unfolding deserialize_package
deserialize_package_framed kem_ct nonce payload h k l =
    rw
      (
        u16_from_le-u16_le (length kem_ct) h,
        drop-append (length kem_ct) kem_ct (nonce ++ payload) refl,
        take-append (length kem_ct) kem_ct (nonce ++ payload) refl,
        drop-append nonce_len nonce payload k,
        take-append nonce_len nonce payload k,
      )
      (ground (arith, length-append kem_ct (nonce ++ payload), length-append nonce payload))

-- A package whose parts have the lengths that the wire format knows parses to those parts.
pub deserialize_package-serialize_package :
    (kem_ct nonce payload : Bytes)
    → length kem_ct < 65536
    → length nonce ≡ nonce_len
    → tag_len ≤ length payload
    → deserialize_package (serialize_package kem_ct nonce payload)
      ≡ ok (record { kem_ct = kem_ct; nonce = nonce; payload = payload })
unfolding serialize_package
deserialize_package-serialize_package kem_ct nonce payload h k l =
    let small : length kem_ct % 65536 ≡ length kem_ct = omega arith in
    rw small (deserialize_package_framed kem_ct nonce payload h k l)

module _ (c : Crypto) where
  encrypted :
      (coins nonce pk pt : Bytes) {pkg : Bytes}
      → encrypt c coins nonce pk pt ≡ ok pkg
      → (kem : Bytes × Bytes) × (c.kem_encapsulate pk coins ≡ some kem)
        × (body : Bytes) × (c.aead_seal kem.1 nonce [] pt ≡ some body)
        × (pkg ≡ serialize_package kem.0 nonce body)
  unfolding encrypt
  encrypted coins nonce pk pt e = elim (Option-cases (c.kem_encapsulate pk coins)) [
    | inl x ↦ ground arith
    | inr (kem, x) ↦ elim (Option-cases (c.aead_seal kem.1 nonce [] pt)) [
      | inl y ↦ ground arith
      | inr (body, y) ↦ (kem, x, body, y, ground arith)
    ]
  ]

  decrypts :
      (kem_ct key nonce body pt sk : Bytes)
      → length sk ≡ secret_key_len
      → length kem_ct ≡ kem_ct_len
      → c.kem_decapsulate sk kem_ct ≡ some key
      → c.aead_open key nonce [] body ≡ some pt
      → decrypt_package c sk (record { kem_ct = kem_ct; nonce = nonce; payload = body }) ≡ ok pt
  unfolding decrypt_package
  decrypts kem_ct key nonce body pt sk h k d o = ground arith

module _ {c : Crypto} (laws : CryptoLaws c) where
  -- What was encrypted to a generated public key decrypts with the secret key to the plaintext.
  pub decrypt-encrypt_package :
      (seed coins nonce pt : Bytes) {pkg : Bytes}
      → length nonce ≡ nonce_len
      → encrypt c coins nonce (c.kem_generate seed).0 pt ≡ ok pkg
      → decrypt c (c.kem_generate seed).1 pkg ≡ ok pt
  unfolding decrypt
  decrypt-encrypt_package seed coins nonce pt h e =
      let (kem, nonce_is, body, body_is, pkg_is) =
        encrypted c coins nonce (c.kem_generate seed).0 pt e in
      let body_long = laws.seal_length kem.1 nonce [] pt body_is in
      let ct_long = laws.kem_ciphertext_length (c.kem_generate seed).0 coins nonce_is in
      rw
        (
          pkg_is,
          deserialize_package-serialize_package kem.0 nonce body (omega (arith, ct_long)) h
              (omega (arith, body_long)),
        )
        (decrypts c kem.0 kem.1 nonce body pt (c.kem_generate seed).1 (laws.kem_secret_length seed)
          ct_long (laws.kem_correct seed coins nonce_is) (laws.open-seal kem.1 nonce [] pt body_is))

  -- What was encrypted with a symmetric key and a nonce of 12 bytes decrypts with the key.
  pub decrypt_symmetric-encrypt_symmetric :
      (nonce key pt : Bytes) {ct : Bytes}
      → length nonce ≡ nonce_len
      → encrypt_symmetric c nonce key pt ≡ some ct
      → decrypt_symmetric c key ct ≡ ok pt
  unfolding encrypt_symmetric decrypt_symmetric
  decrypt_symmetric-encrypt_symmetric nonce key pt {ct = ct} h e =
      elim (Option-cases (c.aead_seal key nonce [] pt)) [
        | inl x ↦ ground arith
        | inr (body, x) ↦
            let is : ct ≡ nonce ++ body = ground arith in
            rw
              (
                is,
                take-append nonce_len nonce body h,
                drop-append nonce_len nonce body h,
                laws.open-seal key nonce [] pt x,
              )
              (ground (arith, length-append nonce body, laws.seal_length key nonce [] pt x))
      ]

same_order :
    (a b : Bytes)
    → (elim (bytes_compare a b) [ Ordering.lt ↦ a ++ b | _ ↦ b ++ a ])
      ≡ (elim (bytes_compare b a) [ Ordering.lt ↦ b ++ a | _ ↦ a ++ b ])
same_order a b = ground (arith, bytes_compare-flip a b, bytes_compare-eq a b)

-- Both sides compute the same fingerprint of their public keys.
pub compute_fingerprint_comm :
    (c : Crypto) (my_pk their_pk : Bytes)
    → compute_fingerprint c my_pk their_pk ≡ compute_fingerprint c their_pk my_pk
unfolding compute_fingerprint
compute_fingerprint_comm c my_pk their_pk =
    ap (λ bytes. groups (c.sha256 bytes) 0 12) (same_order my_pk their_pk)
