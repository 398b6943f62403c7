-- ===== src/Identity/Profile.antt =====
-- core/src/identity.rs: blind profiles. The draw is the nonce of the encryption, and
-- `to_lowercase`, that of Rust's `str` on the UTF-8 bytes of a name, is a parameter. A failure of the
-- cipher, where the source panics, is `encryption_panics`.
use vurn_server.Prelude.{
  [], ◌∷◌, ◌==◌, if◌then◌else◌, length, Result, ok, err, ◌>>=◌, map_err, ok_or,
}
use vurn_server.Prelude.Bytes.{Bytes}
use vurn_server.Crypto.{Crypto}
use vurn_server.Package.{CipherError, encrypt_symmetric, decrypt_symmetric}
use vurn_server.Identity.{
  IdentityError, IdentityBundle, encode_identity, decode_identity, encode, decode,
}

-- "VURN_SEARCH"
abbrev pub search_salt : Bytes
search_salt = 86 ∷ 85 ∷ 82 ∷ 78 ∷ 95 ∷ 83 ∷ 69 ∷ 65 ∷ 82 ∷ 67 ∷ 72 ∷ []

-- "VURN_PROFILE_ENC"
abbrev pub profile_enc_salt : Bytes
profile_enc_salt =
    86 ∷ 85 ∷ 82 ∷ 78 ∷ 95 ∷ 80 ∷ 82 ∷ 79 ∷ 70 ∷ 73 ∷ 76 ∷ 69 ∷ 95 ∷ 69 ∷ 78 ∷ 67 ∷ []

pub data ProfileError : Type 0 where
  hmac_not_32_bytes encryption_panics : ProfileError
  not_decrypted : CipherError → ProfileError
  not_decoded : IdentityError → ProfileError

module _ (c : Crypto) where
  unfoldable pub hmac_sha256 : Bytes → Bytes → Bytes
  hmac_sha256 data_bytes salt = c.hmac salt data_bytes

  unfoldable pub derive_encryption_key : Bytes → Result ProfileError Bytes
  derive_encryption_key normalized_username =
      let raw = hmac_sha256 normalized_username profile_enc_salt in
      if length raw == 32 then ok raw else err hmac_not_32_bytes

module _ (c : Crypto) (to_lowercase : Bytes → Bytes) where
  unfoldable pub prepare_registration :
      Bytes → Bytes → Bytes → Bytes → Result ProfileError (Bytes × Bytes)
  prepare_registration nonce username public_key signing_public_key =
      let normalized = to_lowercase username in
      let search_index = hmac_sha256 c normalized search_salt in
      do
        enc_key ← derive_encryption_key c normalized
        blob ←
            ok_or encryption_panics
              (encrypt_symmetric c nonce enc_key (encode_identity public_key signing_public_key))
        ok (search_index, blob)

  unfoldable pub resolve_profile : Bytes → Bytes → Result ProfileError (Bytes × Bytes)
  resolve_profile search_username encrypted_blob = do
    enc_key ← derive_encryption_key c (to_lowercase search_username)
    identity ← map_err not_decrypted (decrypt_symmetric c enc_key encrypted_blob)
    map_err not_decoded (decode_identity identity)

  unfoldable pub prepare_registration_v9 :
      Bytes → Bytes → IdentityBundle → Result ProfileError (Bytes × Bytes)
  prepare_registration_v9 nonce username bundle =
      let normalized = to_lowercase username in
      let search_index = hmac_sha256 c normalized search_salt in
      do
        enc_key ← derive_encryption_key c normalized
        blob ← ok_or encryption_panics (encrypt_symmetric c nonce enc_key (encode bundle))
        ok (search_index, blob)

  unfoldable pub resolve_profile_v9 : Bytes → Bytes → Result ProfileError IdentityBundle
  resolve_profile_v9 search_username encrypted_blob = do
    enc_key ← derive_encryption_key c (to_lowercase search_username)
    identity ← map_err not_decrypted (decrypt_symmetric c enc_key encrypted_blob)
    map_err not_decoded (decode identity)

-- The index under which a client looks a name up.
abbrev pub search_index : Crypto → (Bytes → Bytes) → Bytes → Bytes
search_index c to_lowercase username = hmac_sha256 c (to_lowercase username) search_salt
