-- ===== src/Bootstrap.antt =====
-- core/src/bootstrap.rs: the root key and the session id of both sides, and the init envelope.
-- An error message is a constructor.
pub mod Agreement
pub mod Envelope
use Prim.Native.Nat.{Ordering}
use vurn_server.Prelude.{
  ℕ, ◌+◌, ◌*◌, ◌%◌, Bool, not, List, [], ◌∷◌, ◌++◌, ltb, ◌==◌, if◌then◌else◌, length, take, drop,
  Result, ok, err, ◌>>=◌, map_err,
}
use vurn_server.Prelude.Bytes.{Bytes, bytes_compare, u16_le, u16_from_le}
use vurn_server.Crypto.{Crypto}
use vurn_server.Ratchet.{kem_ct_len}
use vurn_server.Ratchet.Kdf.{x25519_shared, kem_encapsulate, kem_decapsulate}
use vurn_server.Identity.{IdentityError, IdentityBundle, is_v9, verify_prekey, encode, decode}

pub data BootstrapError : Type 0 where
  no_signed_prekey not_32_bytes dh1_failed dh2_failed dh3_failed kem1_failed kem2_failed :
      BootstrapError
  envelope_truncated bundle_truncated kem_cts_truncated missing_package : BootstrapError
  identity : IdentityError → BootstrapError

-- The bytes of "vurn-init"
abbrev pub init_info : Bytes
init_info = 118 ∷ 117 ∷ 114 ∷ 110 ∷ 45 ∷ 105 ∷ 110 ∷ 105 ∷ 116 ∷ []

unfoldable pub arr32 : Bytes → Result BootstrapError Bytes
arr32 v = if length v == 32 then ok v else err not_32_bytes

pub record InitiatorOutput : Type 0 where
  pub root : Bytes
  pub session_id : Bytes
  pub ct_spk : Bytes
  pub ct_ik : Bytes

pub record ParsedInit : Type 0 where
  pub bundle : IdentityBundle
  pub ct_spk : Bytes
  pub ct_ik : Bytes
  pub pkg : Bytes

module _ (c : Crypto) where
  unfoldable pub hkdf_sha256 : Bytes → Bytes → Bytes
  hkdf_sha256 ikm info = c.hmac (c.hmac [] ikm) (info ++ (0x01 ∷ []))

  unfoldable pub session_id_from : Bytes → Bytes → Bytes
  session_id_from a_ik_x b_ik_x =
      c.sha256 (elim (bytes_compare a_ik_x b_ik_x) [
        | Ordering.gt ↦ b_ik_x ++ a_ik_x
        | _ ↦ a_ik_x ++ b_ik_x
      ])

  -- Keypairs are (public, secret). The draws are the coins of the two encapsulations.
  unfoldable pub initiator_bootstrap :
      Bytes
      → Bytes
      → Bytes × Bytes
      → Bytes × Bytes
      → IdentityBundle
      → Result BootstrapError InitiatorOutput
  initiator_bootstrap coins_spk coins_ik ik_x ek_x peer =
      if not (is_v9 peer) then err no_signed_prekey else do
        verified ← map_err identity (verify_prekey c peer)
        spk_x ← arr32 peer.spk_x
        ik_x_peer ← arr32 peer.ik_x
        dh1 ← map_err (λ e. dh1_failed) (x25519_shared c ik_x.1 spk_x)
        dh2 ← map_err (λ e. dh2_failed) (x25519_shared c ek_x.1 ik_x_peer)
        dh3 ← map_err (λ e. dh3_failed) (x25519_shared c ek_x.1 spk_x)
        spk ← map_err (λ e. kem1_failed) (kem_encapsulate c peer.spk_kem coins_spk)
        ik ← map_err (λ e. kem2_failed) (kem_encapsulate c peer.ik_kem coins_ik)
        ok (record {
          root = hkdf_sha256 (dh1 ++ dh2 ++ dh3 ++ spk.1 ++ ik.1) init_info;
          session_id = session_id_from ik_x.0 peer.ik_x;
          ct_spk = spk.0;
          ct_ik = ik.0;
        })

  unfoldable pub responder_bootstrap :
      Bytes × Bytes
      → Bytes × Bytes
      → Bytes
      → Bytes
      → IdentityBundle
      → Bytes
      → Bytes
      → Bytes
      → Result BootstrapError (Bytes × Bytes)
  responder_bootstrap ik_x spk_x ik_kem_sk spk_kem_sk peer ek_x_pub ct_spk ct_ik =
      if not (is_v9 peer) then err no_signed_prekey else do
        verified ← map_err identity (verify_prekey c peer)
        peer_ik_x ← arr32 peer.ik_x
        dh1 ← map_err (λ e. dh1_failed) (x25519_shared c spk_x.1 peer_ik_x)
        dh2 ← map_err (λ e. dh2_failed) (x25519_shared c ik_x.1 ek_x_pub)
        dh3 ← map_err (λ e. dh3_failed) (x25519_shared c spk_x.1 ek_x_pub)
        ss_spk ← map_err (λ e. kem1_failed) (kem_decapsulate c spk_kem_sk ct_spk)
        ss_ik ← map_err (λ e. kem2_failed) (kem_decapsulate c ik_kem_sk ct_ik)
        ok (
          hkdf_sha256 (dh1 ++ dh2 ++ dh3 ++ ss_spk ++ ss_ik) init_info,
          session_id_from peer.ik_x ik_x.0,
        )

unfoldable pub build_init_envelope : IdentityBundle → Bytes → Bytes → Bytes → Bytes
build_init_envelope bundle ct_spk ct_ik pkg =
    let enc = encode bundle in u16_le (length enc % 65536) ++ (enc ++ (ct_spk ++ (ct_ik ++ pkg)))

-- The part of `parse_init_envelope` behind the bundle.
unfoldable pub parse_rest : IdentityBundle → Bytes → Result BootstrapError ParsedInit
parse_rest bundle rest =
    let pkg = drop kem_ct_len (drop kem_ct_len rest) in
    if ltb (length rest) (kem_ct_len + kem_ct_len)
    then err kem_cts_truncated
    else if length pkg == 0
    then err missing_package
    else ok (record {
      bundle = bundle;
      ct_spk = take kem_ct_len rest;
      ct_ik = take kem_ct_len (drop kem_ct_len rest);
      pkg = pkg;
    })

unfoldable pub parse_init_envelope : Bytes → Result BootstrapError ParsedInit
parse_init_envelope bytes =
    let bundle_len = u16_from_le bytes in
    if ltb (length bytes) 2
    then err envelope_truncated
    else if ltb (length bytes) (2 + bundle_len)
    then err bundle_truncated
    else do
      bundle ← map_err identity (decode (take bundle_len (drop 2 bytes)))
      parse_rest bundle (drop bundle_len (drop 2 bytes))
