-- ===== src/Signing/RoundTrip.antt =====
-- core/src/signing.rs: what was signed verifies, and what verifies was signed so.
use vurn_server.Prelude.{
  ◌<◌, ◌≡◌, ◌∙◌, ap, ◌↔◌, refl, true, some, ◌++◌, arith, length, length-append, take-append,
  drop-append, ok, >>=-eq-ok, ok_or, ok_or-eq-ok, Option-cases, inl, inr,
}
use vurn_server.Prelude.Bytes.{Bytes, u16_le, u16_from_le-u16_le}
use vurn_server.Crypto.{Crypto, CryptoLaws}
use vurn_server.Signing.{
  public_key_len, signature_len, no_signature, split_payload, sign_raw, sign_message, verify_raw,
  verify_signed, verify_message,
}

-- A payload that was framed with a signature splits into the signature and the text.
pub split_payload-framed :
    (sig text : Bytes)
    → 0 < length sig
    → length sig < 65536
    → split_payload (u16_le (length sig) ++ sig ++ text) ≡ some (sig, text)
unfolding split_payload
split_payload-framed sig text h k =
    rw
      (
        u16_from_le-u16_le (length sig) k,
        take-append (length sig) sig text refl,
        drop-append (length sig) sig text refl,
      )
      (ground (arith, length-append sig text))

module _ {c : Crypto} (laws : CryptoLaws c) where
  signed :
      (seed text : Bytes) {payload : Bytes}
      → sign_message c seed text ≡ ok payload
      → (sig : Bytes) × (c.dsa_sign seed text ≡ some sig)
        × (payload ≡ u16_le (length sig) ++ sig ++ text)
  unfolding sign_message
  signed seed text h = elim (Option-cases (c.dsa_sign seed text)) [
    | inl e ↦ ground arith
    | inr (sig, e) ↦ (sig, e, ground arith)
  ]

  -- A message that was signed with a seed verifies with the seed's public key, and gives the
  -- text.
  pub verify_message-sign_message :
      (seed text : Bytes) {payload : Bytes}
      → sign_message c seed text ≡ ok payload
      → verify_message c (c.dsa_public seed) payload ≡ ok text
  unfolding verify_message verify_signed
  verify_message-sign_message seed text h =
      let (sig, made, is) = signed seed text h in
      let long = laws.signature_length seed text made in
      rw (is, split_payload-framed sig text (omega (arith, long)) (omega (arith, long)))
        (ground (arith, laws.dsa_public_length seed, long, laws.verify-sign seed text made))

  -- A signature that was made with a seed verifies with the seed's public key.
  pub verify_raw-sign_raw :
      (seed text : Bytes) {sig : Bytes}
      → sign_raw c seed text ≡ ok sig
      → verify_raw c (c.dsa_public seed) text sig ≡ ok tt
  unfolding sign_raw verify_raw
  verify_raw-sign_raw seed text {sig = sig} h =
      let made : c.dsa_sign seed text ≡ some sig = ground (arith) in
      ground (
        arith,
        laws.dsa_public_length seed,
        laws.signature_length seed text made,
        laws.verify-sign seed text made,
      )

module _ (c : Crypto) where
  verify_signed-ok :
      (public_key sig t : Bytes) {text : Bytes}
      → verify_signed c public_key sig t ≡ ok text
      → (t ≡ text)
        × (length public_key ≡ public_key_len)
        × (length sig ≡ signature_len)
        × (c.dsa_verify public_key t sig ≡ true)
  unfolding verify_signed
  verify_signed-ok public_key sig t h = ground arith

  verified_parts :
      (public_key sig t payload text : Bytes)
      → split_payload payload ≡ some (sig, t)
      → verify_signed c public_key sig t ≡ ok text
      → (sig : Bytes) × (split_payload payload ≡ some (sig, text))
        × (length public_key ≡ public_key_len)
        × (length sig ≡ signature_len)
        × (c.dsa_verify public_key text sig ≡ true)
  verified_parts public_key sig t payload text split verified =
      let (same, k, l, v) = verify_signed-ok public_key sig t verified in
      (sig, split ∙ ap (λ x. some (sig, x)) same, k, l, cc (same, v))

  -- A payload verifies with a public key as a text exactly if it splits into a signature and that
  -- text, key and signature have their lengths, and the signature verifies.
  pub verify_message_iff :
      (public_key payload text : Bytes)
      → (verify_message c public_key payload ≡ ok text) ↔ (
          (sig : Bytes) × (split_payload payload ≡ some (sig, text))
          × (length public_key ≡ public_key_len)
          × (length sig ≡ signature_len)
          × (c.dsa_verify public_key text sig ≡ true))
  unfolding verify_message verify_signed
  verify_message_iff public_key payload text = (
    λ h.
        let ((sig, t), split, verified) =
          >>=-eq-ok (ok_or no_signature (split_payload payload))
            (λ signed. verify_signed c public_key signed.0 signed.1) h in
        verified_parts public_key sig t payload text
          (ok_or-eq-ok no_signature (split_payload payload) split) verified,
    λ (sig, split, k, l, v). rw split (ground arith),
  )
