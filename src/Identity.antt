-- ===== src/Identity.antt =====
-- core/src/identity.rs: the identity bundle, its wire formats, the signed prekey and the packed
-- invite. The text of an invite link (base64 and URL) is not modelled: `pack_invite` and
-- `unpack_invite` are the bytes inside. An error message is a constructor.
pub mod RoundTrip
pub mod Prekey
pub mod Profile
pub mod Resolve
use vurn_server.Prelude.{
  ℕ, ◌+◌, ◌%◌, Bool, true, false, not, ◌&&◌, List, [], ◌∷◌, ◌++◌, leb, ltb, ◌==◌, if◌then◌else◌,
  length, take, drop, get_or, Result, ok, err, ◌>>=◌, map_err,
}
use vurn_server.Prelude.Bytes.{Bytes, bytes_eq, u16_le, u16_from_le}
use vurn_server.Crypto.{Crypto}
use vurn_server.Signing.{SignError, verify_raw, sign_raw, public_key_len, signature_len}
use vurn_server.Ratchet.Kdf.{x25519_keypair}

abbrev pub identity_v9_version : ℕ
identity_v9_version = 0x09

abbrev pub x25519_pk_len : ℕ
x25519_pk_len = 32

abbrev pub kem_pk_len : ℕ
kem_pk_len = 1568

pub data IdentityError : Type 0 where
  too_short missing_signing_header signing_cut_short v9_truncated : IdentityError
  no_prekey prekey_does_not_verify invite_too_short invite_truncated : IdentityError

pub record IdentityBundle : Type 0 where
  pub ik_kem : Bytes
  pub ik_x : Bytes
  pub sig_pk : Bytes
  pub spk_kem : Bytes
  pub spk_x : Bytes
  pub spk_sig : Bytes

unfoldable pub encode_identity : Bytes → Bytes → Bytes
encode_identity public_key signing_public_key =
    u16_le (length public_key % 65536)
    ++ (public_key ++ (u16_le (length signing_public_key % 65536) ++ signing_public_key))

unfoldable pub decode_identity : Bytes → Result IdentityError (Bytes × Bytes)
decode_identity bytes =
    let kem_len = u16_from_le bytes in
    let rest = drop kem_len (drop 2 bytes) in
    let sig_len = u16_from_le rest in
    if ltb (length bytes) 2
    then err too_short
    else if ltb (length bytes) (2 + kem_len + 2)
    then err missing_signing_header
    else if ltb (length bytes) (2 + kem_len + 2 + sig_len)
    then err signing_cut_short
    else ok (take kem_len (drop 2 bytes), take sig_len (drop 2 rest))

unfoldable pub same_identity : IdentityBundle → IdentityBundle → Bool
same_identity a b =
    bytes_eq a.ik_kem b.ik_kem && bytes_eq a.ik_x b.ik_x && bytes_eq a.sig_pk b.sig_pk

unfoldable pub encode : IdentityBundle → Bytes
encode a =
    identity_v9_version
    ∷ (a.ik_kem ++ (a.ik_x ++ (a.sig_pk ++ (a.spk_kem ++ (a.spk_x ++ a.spk_sig)))))

-- The part of `decode` for the older format.
unfoldable pub decode_legacy : Bytes → Result IdentityError IdentityBundle
decode_legacy bytes = do
  keys ← decode_identity bytes
  ok (record {
    ik_kem = keys.0;
    ik_x = [];
    sig_pk = keys.1;
    spk_kem = [];
    spk_x = [];
    spk_sig = [];
  })

abbrev pub v9_len : ℕ
v9_len =
    1 + (kem_pk_len + kem_pk_len) + (x25519_pk_len + x25519_pk_len) + public_key_len + signature_len

-- The part of `decode` that takes the fields, in their order.
unfoldable pub take_fields : Bytes → IdentityBundle
take_fields bytes =
    let p1 = drop kem_pk_len bytes in
    let p2 = drop x25519_pk_len p1 in
    let p3 = drop public_key_len p2 in
    let p4 = drop kem_pk_len p3 in
    let p5 = drop x25519_pk_len p4 in
    record {
      ik_kem = take kem_pk_len bytes;
      ik_x = take x25519_pk_len p1;
      sig_pk = take public_key_len p2;
      spk_kem = take kem_pk_len p3;
      spk_x = take x25519_pk_len p4;
      spk_sig = take signature_len p5;
    }

unfoldable pub decode : Bytes → Result IdentityError IdentityBundle
decode [] = decode_legacy []
decode (version ∷ bytes) =
    if not (version == identity_v9_version)
    then decode_legacy (version ∷ bytes)
    else if ltb (length (version ∷ bytes)) v9_len
    then err v9_truncated
    else ok (take_fields bytes)

abbrev pub not_empty : Bytes → Bool
not_empty [] = false
not_empty (x ∷ xs) = true

unfoldable pub is_v9 : IdentityBundle → Bool
is_v9 a = not_empty a.ik_x && not_empty a.spk_kem && not_empty a.spk_x && not_empty a.spk_sig

-- The bytes that `generate_invite_v9` encodes; `generate_invite` has `encode_identity` in place of
-- the bundle's `encode`.
unfoldable pub pack_invite : Bytes → Bytes → Bytes
pack_invite session_hash identity =
    u16_le (length session_hash % 65536) ++ (session_hash ++ identity)

-- `parse_invite_raw` behind the decoding of the link.
unfoldable pub unpack_invite : Bytes → Result IdentityError (Bytes × Bytes)
unpack_invite bytes =
    let sh_len = u16_from_le bytes in
    if ltb (length bytes) 4
    then err invite_too_short
    else if ltb (length bytes) (2 + sh_len + 2)
    then err invite_truncated
    else ok (take sh_len (drop 2 bytes), drop sh_len (drop 2 bytes))

unfoldable pub parse_invite_v9 : Bytes → Result IdentityError (Bytes × IdentityBundle)
parse_invite_v9 bytes = do raw ← unpack_invite bytes; bundle ← decode raw.1; ok (raw.0, bundle)

-- The arm of `parse_invite` for a payload that `decode_identity` refuses.
unfoldable pub bare_kem_key : Bytes → IdentityError → Result IdentityError (Bytes × Bytes)
bare_kem_key identity e =
    if leb 2 (length identity)
    then (if length identity == 2 + u16_from_le identity
        then ok (drop 2 identity, [])
        else err missing_signing_header)
    else err e

unfoldable pub parse_invite : Bytes → Result IdentityError (Bytes × Bytes × Bytes)
parse_invite bytes = do
  raw ← unpack_invite bytes
  keys ← elim (decode_identity raw.1) [ ok keys ↦ ok keys | err e ↦ bare_kem_key raw.1 e ]
  ok (raw.0, keys.0, keys.1)

pub record RotatedPrekey : Type 0 where
  pub bundle : IdentityBundle
  pub spk_kem_sk : Bytes
  pub spk_x_sk : Bytes

module _ (c : Crypto) where
  unfoldable pub verify_prekey : IdentityBundle → Result IdentityError (Unit {0})
  verify_prekey a =
      if not (is_v9 a)
      then err no_prekey
      else map_err (λ e. prekey_does_not_verify)
          (verify_raw c a.sig_pk (a.spk_kem ++ a.spk_x) a.spk_sig)

  -- The draws are the seed of the ML-KEM key and the X25519 secret.
  unfoldable pub rotate_signed_prekey :
      Bytes → Bytes → Bytes → Bytes → Bytes → Bytes → Result SignError RotatedPrekey
  rotate_signed_prekey seed secret ik_kem ik_x sig_pk sig_sk =
      let (spk_kem, spk_kem_sk) = c.kem_generate seed in
      let (spk_x, spk_x_sk) = x25519_keypair c secret in
      do
        spk_sig ← sign_raw c sig_sk (spk_kem ++ spk_x)
        ok (record {
          bundle = record {
            ik_kem = ik_kem;
            ik_x = ik_x;
            sig_pk = sig_pk;
            spk_kem = spk_kem;
            spk_x = spk_x;
            spk_sig = spk_sig;
          };
          spk_kem_sk = spk_kem_sk;
          spk_x_sk = spk_x_sk;
        })

  unfoldable pub build_identity_bundle :
      Bytes → Bytes → Bytes → Bytes → Bytes → Bytes → Result SignError IdentityBundle
  build_identity_bundle seed secret ik_kem ik_x sig_pk sig_sk =
      let (spk_kem, _) = c.kem_generate seed in
      let (spk_x, _) = x25519_keypair c secret in
      do
        spk_sig ← sign_raw c sig_sk (spk_kem ++ spk_x)
        ok (record {
          ik_kem = ik_kem;
          ik_x = ik_x;
          sig_pk = sig_pk;
          spk_kem = spk_kem;
          spk_x = spk_x;
          spk_sig = spk_sig;
        })
