-- ===== src/Ratchet/InOrder.antt =====
-- A package that arrives in its turn, for core/src/ratchet.rs: `decrypt` returns the plaintext that
-- `encrypt` was given, and the two sessions stay in step.
use vurn_server.Prelude.{
  ◌+◌, ◌-◌, ◌%◌, ◌<◌, ◌≡◌, refl, Bool, true, false, Option, none, some, ◌++◌, arith, is_some,
  length, length-append, take-append, ok, Bool-cases, inl, inr,
}
use vurn_server.Prelude.Bytes.{Bytes}
use vurn_server.Prelude.SortedMap.{get}
use vurn_server.Crypto.{Crypto, CryptoLaws}
use vurn_server.Ratchet.{Session, store_order, u32_mod, kem_pk_len}
use vurn_server.Ratchet.Kdf.{chain_step}
use vurn_server.Ratchet.Header.{Header, has_flag, flag_dh, flag_kem_pk, flag_kem_ct, parse_header}
use vurn_server.Ratchet.Header.RoundTrip.{HasLength, parse_header-build_header}
use vurn_server.Ratchet.Encrypt.{Draws, Encapsulated, send_flags}
use vurn_server.Ratchet.Decrypt.{
  open_aead, adopt_kem, next_receive_key, arrive, receive, header_bytes, decrypt_parsed, decrypt,
}
use vurn_server.Ratchet.Delivery.{
  KemReady, open_aead-seal, encapsulate_to-length, aead_encrypt-length,
}
use vurn_server.Ratchet.Sent.{IsSent, advertised, sent_header}

pub header_bytes-append : (header ct : Bytes) → header_bytes (header ++ ct) ct ≡ header
header_bytes-append header ct =
    take-append (length (header ++ ct) - length ct) header ct
      (omega (arith, length-append header ct))

-- The flags say which optional fields stand in the header.
send_flags_lem :
    (pk ct : Bool)
    → (has_flag (send_flags pk ct) flag_dh ≡ true)
      × (has_flag (send_flags pk ct) flag_kem_pk ≡ pk)
      × (has_flag (send_flags pk ct) flag_kem_ct ≡ ct)
send_flags_lem true true = (refl, refl, refl)
send_flags_lem true false = (refl, refl, refl)
send_flags_lem false true = (refl, refl, refl)
send_flags_lem false false = (refl, refl, refl)

-- What the counters and the ratchet key of a sender have to be for its header to be well formed.
pub record IsSender (a : Session) : Type 0 where
  pub pn_fits : a.pn < u32_mod
  pub n_fits : a.n_s < u32_mod
  pub key_length : length a.dh_s.0 ≡ 32

-- The receiver's session afterwards: its chain is where the sender's is, and it has adopted the
-- ML-KEM key that the package advertised.
abbrev pub received : Option Bytes → Session → Session → Session
received kem_pk a' b2 =
    adopt_kem kem_pk (record b2 { ck_r = a'.ck_s; n_r = (b2.n_r + 1) % u32_mod })

module _ {c : Crypto} (laws : CryptoLaws c) (d : Draws) (pt : Bytes) where
  abbrev pub sent_fields : Session → Encapsulated → Header
  sent_fields a kem = record {
    flags = send_flags (is_some (advertised c d pt a)) (is_some kem.ct);
    pn = a.pn;
    n = a.n_s;
    dh_pub = a.dh_s.0;
    kem_pk = advertised c d pt a;
    kem_ct = kem.ct;
  }

  advertised-length : (a : Session) → HasLength kem_pk_len (advertised c d pt a)
  advertised-length a = elim (Bool-cases a.advertise_kem_next) [
    | inl e ↦ rw e (laws.kem_public_length d.kem_seed)
    | inr e ↦ rw e tt
  ]

  pub parse_header-IsSent :
      (a : Session) {pkg : Bytes} {a' : Session}
      → IsSender a
      → (s : IsSent c d pt a pkg a') → parse_header pkg ≡ ok (sent_fields a s.kem, s.body)
  parse_header-IsSent a r s =
      let (dh_flag, pk_flag, ct_flag) =
        send_flags_lem (is_some (advertised c d pt a)) (is_some s.kem.ct) in
      rw s.package_is (
        parse_header-build_header _ a.pn a.n_s a.dh_s.0 s.body (advertised c d pt a) s.kem.ct
          dh_flag pk_flag ct_flag r.pn_fits r.n_fits r.key_length (advertised-length a)
          (encapsulate_to-length laws d.coins a.kem_peer s.kem s.made)
          (aead_encrypt-length laws _ _ _ pt s.sealed))

  module _ {a : Session} {pkg : Bytes} {a' : Session} (r : IsSender a) (s : IsSent c d pt a pkg a')
      (b b2 : Session) (not_stored : get store_order b.skipped (a.dh_s.0, a.n_s) ≡ none)
      (arrives : arrive c (sent_fields a s.kem) b ≡ (ok tt, b2))
      (same_id : b2.session_id ≡ a.session_id) (same_chain : b2.ck_r ≡ some s.ck)
      (kem_ready : KemReady laws a.kem_peer b2.kem_advertised) where
    opens :
        open_aead c b2 (sent_header c d pt a s.kem) s.body s.kem.ct (chain_step c s.ck).0 ≡ ok pt
    opens =
        open_aead-seal laws d.coins a.kem_peer s.kem b2 (sent_header c d pt a s.kem) _ pt s.made
          kem_ready (rw same_id s.sealed)

    receives :
        receive c (sent_fields a s.kem) (sent_header c d pt a s.kem) s.body b
        ≡ (ok pt, received (advertised c d pt a) a' b2)
    unfolding receive next_receive_key adopt_kem open_aead
    receives = ground (arith, arrives, same_chain, opens, s.next_chain)

    pub delivers : decrypt c pkg b ≡ (ok pt, received (advertised c d pt a) a' b2)
    unfolding decrypt decrypt_parsed
    delivers =
        rw (parse_header-IsSent a r s, decrypt)
          (rw (not_stored, decrypt_parsed)
            (rw (s.package_is, header_bytes-append (sent_header c d pt a s.kem) s.body) receives))
