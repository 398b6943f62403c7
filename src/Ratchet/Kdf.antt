-- ===== src/Ratchet/Kdf.antt =====
-- core/src/ratchet.rs: the key derivations, the X25519 and ML-KEM helpers and the AEAD.
use vurn_server.Prelude.{
  ℕ, not, ◌||◌, Option, none, some, [], ◌∷◌, ◌++◌, ◌==◌, if◌then◌else◌, length, take, Result, ok,
  err, ok_or,
}
use vurn_server.Prelude.Bytes.{Bytes}
use vurn_server.Crypto.{Crypto}
use vurn_server.Ratchet.{DecryptError, malformed, auth_failed, kem_pk_len, kem_sk_len, kem_ct_len}

abbrev pub nonce_len : ℕ
nonce_len = 12

module _ (c : Crypto) where
  unfoldable pub chain_step : Bytes → Bytes × Bytes
  chain_step ck = (c.hmac ck (0x01 ∷ []), c.hmac ck (0x02 ∷ []))

  unfoldable pub root_step : Bytes → Bytes → Bytes × Bytes
  root_step rk dh_out = (c.hmac rk (0x03 ∷ dh_out), c.hmac rk (0x04 ∷ dh_out))

  unfoldable pub mix_kem : Bytes → Option Bytes → Bytes
  mix_kem dh_mk (some ss) = c.hmac dh_mk (0x05 ∷ ss)
  mix_kem dh_mk none = dh_mk

  unfoldable pub aead_key : Bytes → Bytes × Bytes
  aead_key final_mk = (c.hmac final_mk (0x06 ∷ []), take nonce_len (c.hmac final_mk (0x07 ∷ [])))

  -- The source's `Result` is never an error.
  unfoldable pub x25519_shared : Bytes → Bytes → Result DecryptError Bytes
  x25519_shared sk pk = ok (c.x25519 sk pk)

  -- The argument is the secret that the generator drew.
  unfoldable pub x25519_keypair : Bytes → Bytes × Bytes
  x25519_keypair secret = (c.x25519_public secret, secret)

  unfoldable pub kem_keypair : Bytes → Bytes × Bytes
  kem_keypair seed = c.kem_generate seed

  unfoldable pub kem_encapsulate : Bytes → Bytes → Result DecryptError (Bytes × Bytes)
  kem_encapsulate pk coins =
      if not (length pk == kem_pk_len)
      then err malformed
      else ok_or malformed (c.kem_encapsulate pk coins)

  unfoldable pub kem_decapsulate : Bytes → Bytes → Result DecryptError Bytes
  kem_decapsulate sk ct =
      if not (length sk == kem_sk_len) || not (length ct == kem_ct_len)
      then err malformed
      else ok_or auth_failed (c.kem_decapsulate sk ct)

  -- The cipher takes any 32-byte key, so `new_from_slice` does not fail here.
  unfoldable pub aead_encrypt : Bytes → Bytes → Bytes → Bytes → Result DecryptError Bytes
  unfolding aead_key
  aead_encrypt session_id header final_mk plaintext =
      let (ek, nonce) = aead_key final_mk in
      ok_or auth_failed (c.aead_seal ek nonce (session_id ++ header) plaintext)

  unfoldable pub aead_decrypt : Bytes → Bytes → Bytes → Bytes → Result DecryptError Bytes
  unfolding aead_key
  aead_decrypt session_id header final_mk ct =
      let (ek, nonce) = aead_key final_mk in
      ok_or auth_failed (c.aead_open ek nonce (session_id ++ header) ct)
