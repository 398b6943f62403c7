-- ===== src/Signing.antt =====
-- core/src/signing.rs: the framing of a signed payload, and the signature with ML-DSA-87. The crate
-- ml-dsa is a parameter: `dsa_verify` decodes the signature and verifies it.
pub mod RoundTrip
use vurn_server.Prelude.{
  ℕ, ◌+◌, Bool, not, Option, none, some, ◌++◌, ltb, ◌==◌, ◌||◌, if◌then◌else◌, length, take, drop,
  Result, ok, err, ◌>>=◌, ok_or,
}
use vurn_server.Prelude.Bytes.{Bytes, u16_le, u16_from_le}
use vurn_server.Crypto.{Crypto}

abbrev pub public_key_len : ℕ
public_key_len = 2592

abbrev pub signature_len : ℕ
signature_len = 4627

abbrev pub secret_key_len : ℕ
secret_key_len = 32

pub data VerifyStatus : Type 0 where
  no_signature no_key bad_public_key bad_signature : VerifyStatus

-- The two messages of `sign_message` and `sign_raw`.
pub data SignError : Type 0 where
  invalid_secret_key signing_failed : SignError

unfoldable pub split_payload : Bytes → Option (Bytes × Bytes)
split_payload payload =
    let sig_len = u16_from_le payload in
    if ltb (length payload) 2
    then none
    else if sig_len == 0 || ltb (length payload) (2 + sig_len)
    then none
    else some (take sig_len (drop 2 payload), drop sig_len (drop 2 payload))

module _ (c : Crypto) where
  unfoldable pub sign_raw : Bytes → Bytes → Result SignError Bytes
  sign_raw secret_key bytes =
      if not (length secret_key == secret_key_len)
      then err invalid_secret_key
      else ok_or signing_failed (c.dsa_sign secret_key bytes)

  unfoldable pub sign_message : Bytes → Bytes → Result SignError Bytes
  sign_message secret_key text =
      if not (length secret_key == secret_key_len) then err invalid_secret_key else do
        sig ← ok_or signing_failed (c.dsa_sign secret_key text)
        ok (u16_le (length sig) ++ sig ++ text)

  unfoldable pub verify_raw : Bytes → Bytes → Bytes → Result VerifyStatus (Unit {0})
  verify_raw public_key bytes sig =
      if length public_key == 0
      then err no_key
      else if not (length public_key == public_key_len)
      then err bad_public_key
      else if not (length sig == signature_len)
      then err bad_signature
      else if c.dsa_verify public_key bytes sig
      then ok tt
      else err bad_signature

  -- The part of `verify_message` behind the split.
  unfoldable pub verify_signed : Bytes → Bytes → Bytes → Result VerifyStatus Bytes
  verify_signed public_key sig text =
      if length public_key == 0
      then err no_key
      else if not (length public_key == public_key_len)
      then err bad_public_key
      else if not (length sig == signature_len)
      then err bad_signature
      else if c.dsa_verify public_key text sig
      then ok text
      else err bad_signature

  unfoldable pub verify_message : Bytes → Bytes → Result VerifyStatus Bytes
  verify_message public_key payload = do
    signed ← ok_or no_signature (split_payload payload)
    verify_signed public_key signed.0 signed.1
