-- ===== src/Identity/RoundTrip.antt =====
-- core/src/identity.rs: what was encoded is decoded.
use vurn_server.Prelude.{
  ℕ, ◌%◌, ◌≤◌, ◌<◌, ◌≡◌, refl, sym, ap, ◌∙◌, [], ◌∷◌, ◌++◌, arith, length, take, length-append,
  take-append, drop-append, append-nil, ok,
}
use vurn_server.Prelude.Bytes.{Bytes, u16_le, u16_from_le-u16_le}
use vurn_server.Signing.{public_key_len, signature_len}
use vurn_server.Identity.{
  IdentityBundle, x25519_pk_len, kem_pk_len, identity_v9_version, v9_len, encode_identity,
  decode_identity, encode, decode, take_fields, pack_invite, unpack_invite, parse_invite,
  parse_invite_v9,
}

-- To take all of a list.
take_all : (n : ℕ) (xs : Bytes) → length xs ≡ n → take n xs ≡ xs
take_all n xs h = ap (take n) (sym (append-nil xs)) ∙ take-append n xs [] h

decode_identity_framed :
    (pk sig_pk : Bytes)
    → length pk < 65536
    → length sig_pk < 65536
    → decode_identity (u16_le (length pk) ++ (pk ++ (u16_le (length sig_pk) ++ sig_pk)))
      ≡ ok (pk, sig_pk)
unfolding decode_identity
decode_identity_framed pk sig_pk h k =
    rw
      (
        u16_from_le-u16_le (length pk) h,
        drop-append (length pk) pk (u16_le (length sig_pk) ++ sig_pk) refl,
        take-append (length pk) pk (u16_le (length sig_pk) ++ sig_pk) refl,
        u16_from_le-u16_le (length sig_pk) k,
        take_all (length sig_pk) sig_pk refl,
      )
      (ground (arith, length-append pk (u16_le (length sig_pk) ++ sig_pk)))

-- An identity of two keys, each with a length that fits the format, is decoded as it was encoded.
pub decode_identity-encode_identity :
    (pk sig_pk : Bytes)
    → length pk < 65536
    → length sig_pk < 65536
    → decode_identity (encode_identity pk sig_pk) ≡ ok (pk, sig_pk)
unfolding encode_identity
decode_identity-encode_identity pk sig_pk h k =
    let small : length pk % 65536 ≡ length pk = omega arith in
    let small_sig : length sig_pk % 65536 ≡ length sig_pk = omega arith in
    rw (small, small_sig) (decode_identity_framed pk sig_pk h k)

-- Every field has the length that its algorithm fixes.
pub record IsComplete (a : IdentityBundle) : Type 0 where
  pub ik_kem_length : length a.ik_kem ≡ kem_pk_len
  pub ik_x_length : length a.ik_x ≡ x25519_pk_len
  pub sig_pk_length : length a.sig_pk ≡ public_key_len
  pub spk_kem_length : length a.spk_kem ≡ kem_pk_len
  pub spk_x_length : length a.spk_x ≡ x25519_pk_len
  pub spk_sig_length : length a.spk_sig ≡ signature_len

take_fields_lem :
    (m n p q r s : Bytes)
    → length m ≡ kem_pk_len
    → length n ≡ x25519_pk_len
    → length p ≡ public_key_len
    → length q ≡ kem_pk_len
    → length r ≡ x25519_pk_len
    → length s ≡ signature_len
    → take_fields (m ++ (n ++ (p ++ (q ++ (r ++ s)))))
      ≡ record { ik_kem = m; ik_x = n; sig_pk = p; spk_kem = q; spk_x = r; spk_sig = s }
unfolding take_fields
take_fields_lem m n p q r s hm hn hp hq hr hs =
    rw
      (
        take-append kem_pk_len m (n ++ (p ++ (q ++ (r ++ s)))) hm,
        drop-append kem_pk_len m (n ++ (p ++ (q ++ (r ++ s)))) hm,
        take-append x25519_pk_len n (p ++ (q ++ (r ++ s))) hn,
        drop-append x25519_pk_len n (p ++ (q ++ (r ++ s))) hn,
        take-append public_key_len p (q ++ (r ++ s)) hp,
        drop-append public_key_len p (q ++ (r ++ s)) hp,
        take-append kem_pk_len q (r ++ s) hq,
        drop-append kem_pk_len q (r ++ s) hq,
        take-append x25519_pk_len r s hr,
        drop-append x25519_pk_len r s hr,
        take_all signature_len s hs,
      )
      refl

pub length_fields : (a : IdentityBundle) → IsComplete a → length (encode a) ≡ v9_len
unfolding encode
length_fields a i = omega (
  arith,
  i.ik_kem_length,
  i.ik_x_length,
  i.sig_pk_length,
  i.spk_kem_length,
  i.spk_x_length,
  i.spk_sig_length,
  length-append a.ik_kem (a.ik_x ++ (a.sig_pk ++ (a.spk_kem ++ (a.spk_x ++ a.spk_sig)))),
  length-append a.ik_x (a.sig_pk ++ (a.spk_kem ++ (a.spk_x ++ a.spk_sig))),
  length-append a.sig_pk (a.spk_kem ++ (a.spk_x ++ a.spk_sig)),
  length-append a.spk_kem (a.spk_x ++ a.spk_sig),
  length-append a.spk_x a.spk_sig,
)

decode_v9 :
    (bytes : Bytes)
    → length (identity_v9_version ∷ bytes) ≡ v9_len
    → decode (identity_v9_version ∷ bytes) ≡ ok (take_fields bytes)
unfolding decode
decode_v9 bytes h = ground arith

-- A bundle whose fields have the lengths of their algorithms is decoded as it was encoded.
pub decode-encode : (a : IdentityBundle) → IsComplete a → decode (encode a) ≡ ok a
unfolding encode
decode-encode a i =
    decode_v9 (a.ik_kem ++ (a.ik_x ++ (a.sig_pk ++ (a.spk_kem ++ (a.spk_x ++ a.spk_sig)))))
      (length_fields a i)
    ∙ ap ok (
        take_fields_lem a.ik_kem a.ik_x a.sig_pk a.spk_kem a.spk_x a.spk_sig i.ik_kem_length
          i.ik_x_length i.sig_pk_length i.spk_kem_length i.spk_x_length i.spk_sig_length)

unpack_invite-pack_invite :
    (session_hash identity : Bytes)
    → length session_hash < 65536
    → 2 ≤ length identity
    → unpack_invite (pack_invite session_hash identity) ≡ ok (session_hash, identity)
unfolding unpack_invite pack_invite
unpack_invite-pack_invite session_hash identity h k =
    let small : length session_hash % 65536 ≡ length session_hash = omega arith in
    rw
      (
        small,
        u16_from_le-u16_le (length session_hash) h,
        drop-append (length session_hash) session_hash identity refl,
        take-append (length session_hash) session_hash identity refl,
      )
      (ground (arith, length-append session_hash identity))

-- An invite that carries a complete bundle parses to its session hash, where that fits the length
-- field, and that bundle.
pub parse_invite_v9-pack_invite :
    (session_hash : Bytes) (a : IdentityBundle)
    → length session_hash < 65536
    → IsComplete a
    → parse_invite_v9 (pack_invite session_hash (encode a)) ≡ ok (session_hash, a)
unfolding parse_invite_v9
parse_invite_v9-pack_invite session_hash a h i =
    rw
      (
        unpack_invite-pack_invite session_hash (encode a) h (omega (arith, length_fields a i)),
        decode-encode a i,
      )
      refl

-- An invite of the older format, whose parts fit their length fields, parses to its session hash
-- and both keys.
pub parse_invite-pack_invite :
    (session_hash pk sig_pk : Bytes)
    → length session_hash < 65536
    → length pk < 65536
    → length sig_pk < 65536
    → parse_invite (pack_invite session_hash (encode_identity pk sig_pk))
      ≡ ok (session_hash, pk, sig_pk)
unfolding parse_invite
parse_invite-pack_invite session_hash pk sig_pk h k l =
    rw
      (
        unpack_invite-pack_invite session_hash (encode_identity pk sig_pk) h
            (unfold encode_identity in omega arith),
        decode_identity-encode_identity pk sig_pk k l,
      )
      refl
