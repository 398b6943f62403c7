-- ===== src/Package.antt =====
-- core/src/lib.rs: `VurnCipher`, with the bytes that the generator drew as arguments. An error
-- message is a constructor. `compute_fingerprint` gives its twelve numbers, which the source prints
-- as five digits each.
pub mod RoundTrip
use Prim.Native.Nat.{Ordering}
use vurn_server.Prelude.{
  ℕ, zero, suc, ◌+◌, ◌*◌, ◌%◌, Bool, not, Option, none, some, List, [], ◌∷◌, ◌++◌, ltb, ◌==◌,
  if◌then◌else◌, length, take, drop, get_or, Result, ok, err, ◌>>=◌, ok_or,
}
use vurn_server.Prelude.Bytes.{Bytes, bytes_compare, u16_le, u16_from_le}
use vurn_server.Crypto.{Crypto}

abbrev pub nonce_len : ℕ
nonce_len = 12

abbrev pub tag_len : ℕ
tag_len = 16

abbrev pub public_key_len : ℕ
public_key_len = 1568

abbrev pub secret_key_len : ℕ
secret_key_len = 3168

abbrev pub kem_ct_len : ℕ
kem_ct_len = 1568

pub data CipherError : Type 0 where
  invalid_public_key encapsulation_failed encryption_failed missing_kem_length missing_nonce
        missing_tag :
      CipherError
  invalid_secret_key invalid_kem_ct decapsulation_failed decryption_failed ciphertext_too_short :
      CipherError

pub record EncryptedPackage : Type 0 where
  pub kem_ct : Bytes
  pub nonce : Bytes
  pub payload : Bytes

unfoldable pub serialize_package : Bytes → Bytes → Bytes → Bytes
serialize_package kem_ct nonce payload =
    u16_le (length kem_ct % 65536) ++ (kem_ct ++ (nonce ++ payload))

unfoldable pub deserialize_package : Bytes → Result CipherError EncryptedPackage
deserialize_package bytes =
    let kem_len = u16_from_le bytes in
    let rest = drop 2 bytes in
    let payload = drop nonce_len (drop kem_len rest) in
    if ltb (length bytes) 2
    then err missing_kem_length
    else if ltb (length bytes) (2 + kem_len + nonce_len)
    then err missing_nonce
    else if ltb (length payload) tag_len
    then err missing_tag
    else ok (record {
      kem_ct = take kem_len rest;
      nonce = take nonce_len (drop kem_len rest);
      payload = payload;
    })

-- The `i`-th number of the fingerprint: two bytes of the hash, the first one the higher.
unfoldable pub fingerprint_group : Bytes → ℕ → ℕ
fingerprint_group hash i =
    let idx = i * 2 % 30 in (256 * get_or hash idx 0 + get_or hash (idx + 1) 0) % 100000

-- The numbers of `n` places, from the `i`-th.
unfoldable pub groups : Bytes → ℕ → ℕ → List ℕ
groups hash i zero = []
groups hash i (suc n) = fingerprint_group hash i ∷ groups hash (i + 1) n

module _ (c : Crypto) where
  -- The draws are the coins of the encapsulation and the nonce.
  unfoldable pub encrypt : Bytes → Bytes → Bytes → Bytes → Result CipherError Bytes
  encrypt coins nonce public_key plaintext =
      if not (length public_key == public_key_len) then err invalid_public_key else do
        kem ← ok_or encapsulation_failed (c.kem_encapsulate public_key coins)
        encrypted ← ok_or encryption_failed (c.aead_seal kem.1 nonce [] plaintext)
        ok (serialize_package kem.0 nonce encrypted)

  -- `decrypt` behind `deserialize_package`.
  unfoldable pub decrypt_package : Bytes → EncryptedPackage → Result CipherError Bytes
  decrypt_package secret_key pkg =
      if not (length secret_key == secret_key_len)
      then err invalid_secret_key
      else if not (length pkg.kem_ct == kem_ct_len)
      then err invalid_kem_ct
      else do
        shared_key ← ok_or decapsulation_failed (c.kem_decapsulate secret_key pkg.kem_ct)
        ok_or decryption_failed (c.aead_open shared_key pkg.nonce [] pkg.payload)

  unfoldable pub decrypt : Bytes → Bytes → Result CipherError Bytes
  decrypt secret_key encrypted_package = do
    pkg ← deserialize_package encrypted_package
    decrypt_package secret_key pkg

  unfoldable pub hash_public_key : Bytes → Bytes
  hash_public_key public_key = c.sha256 public_key

  -- The source panics where the cipher fails; here that is `none`.
  unfoldable pub encrypt_symmetric : Bytes → Bytes → Bytes → Option Bytes
  encrypt_symmetric nonce key plaintext = elim (c.aead_seal key nonce [] plaintext) [
    | some encrypted ↦ some (nonce ++ encrypted)
    | none ↦ none
  ]

  unfoldable pub decrypt_symmetric : Bytes → Bytes → Result CipherError Bytes
  decrypt_symmetric key ciphertext =
      if ltb (length ciphertext) (nonce_len + tag_len)
      then err ciphertext_too_short
      else ok_or decryption_failed
          (c.aead_open key (take nonce_len ciphertext) [] (drop nonce_len ciphertext))

  unfoldable pub compute_fingerprint : Bytes → Bytes → List ℕ
  compute_fingerprint my_pk their_pk =
      let hash = c.sha256 (elim (bytes_compare my_pk their_pk) [
        | Ordering.lt ↦ my_pk ++ their_pk
        | _ ↦ their_pk ++ my_pk
      ]) in
      groups hash 0 12
