-- ===== src/Bootstrap/Agreement.antt =====
-- core/src/bootstrap.rs: both sides derive one root key and one session id.
use Prim.Native.Nat.{Ordering}
use vurn_server.Prelude.{◌≡◌, refl, ap, ◌∙◌, some, ◌++◌, arith, length, ok, Result-cases, inl, inr}
use vurn_server.Prelude.Bytes.{Bytes, bytes_compare, bytes_compare-eq, bytes_compare-flip}
use vurn_server.Crypto.{Crypto, CryptoLaws}
use vurn_server.Ratchet.Kdf.{x25519_shared, kem_encapsulate, kem_decapsulate}
use vurn_server.Identity.{IdentityBundle, verify_prekey}
use vurn_server.Identity.Prekey.{complete-is_v9}
use vurn_server.Identity.RoundTrip.{IsComplete}
use vurn_server.Bootstrap.{
  InitiatorOutput, arr32, hkdf_sha256, init_info, session_id_from, initiator_bootstrap,
  responder_bootstrap,
}

same_order :
    (a b : Bytes)
    → (elim (bytes_compare a b) [ Ordering.gt ↦ b ++ a | _ ↦ a ++ b ])
      ≡ (elim (bytes_compare b a) [ Ordering.gt ↦ a ++ b | _ ↦ b ++ a ])
same_order a b = ground (arith, bytes_compare-flip a b, bytes_compare-eq a b)

-- The session id does not depend on who initiates.
pub session_id_from_comm :
    (c : Crypto) (a b : Bytes) → session_id_from c a b ≡ session_id_from c b a
unfolding session_id_from
session_id_from_comm c a b = ap c.sha256 (same_order a b)

pub arr32_lem : (v : Bytes) → length v ≡ 32 → arr32 v ≡ ok v
unfolding arr32
arr32_lem v h = ground arith

module _ {c : Crypto} (laws : CryptoLaws c) where
  encapsulated :
      (pk coins : Bytes) {ct ss : Bytes}
      → kem_encapsulate c pk coins ≡ ok (ct, ss)
      → c.kem_encapsulate pk coins ≡ some (ct, ss)
  unfolding kem_encapsulate
  encapsulated pk coins h = ground arith

  decapsulated :
      (seed coins : Bytes) {ct ss : Bytes}
      → kem_encapsulate c (c.kem_generate seed).0 coins ≡ ok (ct, ss)
      → kem_decapsulate c (c.kem_generate seed).1 ct ≡ ok ss
  unfolding kem_decapsulate
  decapsulated seed coins h =
      let made = encapsulated _ coins h in
      ground (
        arith,
        laws.kem_secret_length seed,
        laws.kem_ciphertext_length _ coins made,
        laws.kem_correct seed coins made,
      )

  -- The initiator's output, opened up.
  initiated :
      (coins_spk coins_ik : Bytes) (ik_x ek_x : Bytes × Bytes) (peer : IdentityBundle)
      {out : InitiatorOutput}
      → IsComplete peer
      → verify_prekey c peer ≡ ok tt
      → initiator_bootstrap c coins_spk coins_ik ik_x ek_x peer ≡ ok out
      → (spk ik : Bytes × Bytes) × (kem_encapsulate c peer.spk_kem coins_spk ≡ ok spk)
        × (kem_encapsulate c peer.ik_kem coins_ik ≡ ok ik)
        × (out ≡ record {
          root =
              hkdf_sha256 c
                (c.x25519 ik_x.1 peer.spk_x
                  ++ c.x25519 ek_x.1 peer.ik_x
                  ++ c.x25519 ek_x.1 peer.spk_x
                  ++ spk.1
                  ++ ik.1)
                init_info;
          session_id = session_id_from c ik_x.0 peer.ik_x;
          ct_spk = spk.0;
          ct_ik = ik.0;
        })
  unfolding initiator_bootstrap x25519_shared
  initiated coins_spk coins_ik ik_x ek_x peer i v h =
      let g =
        rw
          (
            complete-is_v9 peer i,
            v,
            arr32_lem peer.spk_x i.spk_x_length,
            arr32_lem peer.ik_x i.ik_x_length,
          )
          at h in
      elim (Result-cases (kem_encapsulate c peer.spk_kem coins_spk)) [
        | inr (x, e) ↦ ground arith
        | inl (spk, e) ↦ elim (Result-cases (kem_encapsulate c peer.ik_kem coins_ik)) [
          | inr (x, f) ↦ ground arith
          | inl (ik, f) ↦ (spk, ik, e, f, ground arith)
        ]
      ]

  responded :
      (ik_x spk_x : Bytes × Bytes) (ik_kem_sk spk_kem_sk : Bytes) (peer : IdentityBundle)
      (ek ct_spk ct_ik ss_spk ss_ik : Bytes)
      → IsComplete peer
      → verify_prekey c peer ≡ ok tt
      → kem_decapsulate c spk_kem_sk ct_spk ≡ ok ss_spk
      → kem_decapsulate c ik_kem_sk ct_ik ≡ ok ss_ik
      → responder_bootstrap c ik_x spk_x ik_kem_sk spk_kem_sk peer ek ct_spk ct_ik
        ≡ ok (
          hkdf_sha256 c
              (c.x25519 spk_x.1 peer.ik_x
                ++ c.x25519 ik_x.1 ek
                ++ c.x25519 spk_x.1 ek
                ++ ss_spk
                ++ ss_ik)
              init_info,
          session_id_from c peer.ik_x ik_x.0,
        )
  unfolding responder_bootstrap x25519_shared
  responded ik_x spk_x ik_kem_sk spk_kem_sk peer ek ct_spk ct_ik ss_spk ss_ik i v d e =
      rw (complete-is_v9 peer i, v, arr32_lem peer.ik_x i.ik_x_length, d, e) refl

  -- The secrets behind a bundle: the seeds of its ML-KEM keys and its X25519 secrets.
  pub record IsOwned (a : IdentityBundle) : Type 0 where
    pub complete : IsComplete a
    pub verified : verify_prekey c a ≡ ok tt
    pub ik_seed : Bytes
    pub spk_seed : Bytes
    pub ik_secret : Bytes
    pub spk_secret : Bytes
    pub ik_kem_is : a.ik_kem ≡ (c.kem_generate ik_seed).0
    pub spk_kem_is : a.spk_kem ≡ (c.kem_generate spk_seed).0
    pub ik_x_is : a.ik_x ≡ c.x25519_public ik_secret
    pub spk_x_is : a.spk_x ≡ c.x25519_public spk_secret

  -- When the initiator's bootstrap against the bundle of a responder succeeds, the responder's
  -- against the initiator's bundle and the two ciphertexts succeeds and gives the same root key
  -- and session id, where both own their bundles and both prekeys verify.
  pub bootstraps_agree :
      (coins_spk coins_ik ek_secret : Bytes) (a b : IdentityBundle) {out : InitiatorOutput}
      → (alice : IsOwned a) → (bob : IsOwned b)
      → initiator_bootstrap c coins_spk coins_ik
          (a.ik_x, alice.ik_secret)
          (c.x25519_public ek_secret, ek_secret)
          b
        ≡ ok out
      → responder_bootstrap c
          (b.ik_x, bob.ik_secret)
          (b.spk_x, bob.spk_secret)
          (c.kem_generate bob.ik_seed).1
          (c.kem_generate bob.spk_seed).1
          a
          (c.x25519_public ek_secret)
          out.ct_spk
          out.ct_ik
        ≡ ok (out.root, out.session_id)
  bootstraps_agree coins_spk coins_ik ek_secret a b alice bob h =
      let (spk, ik, e, f, is) =
        initiated coins_spk coins_ik (a.ik_x, alice.ik_secret)
          (c.x25519_public ek_secret, ek_secret) b bob.complete bob.verified h in
      rw (is) (
        responded (b.ik_x, bob.ik_secret) (b.spk_x, bob.spk_secret) (c.kem_generate bob.ik_seed).1
          (c.kem_generate bob.spk_seed).1 a (c.x25519_public ek_secret) spk.0 ik.0 spk.1 ik.1
          alice.complete alice.verified
          (decapsulated bob.spk_seed coins_spk (rw bob.spk_kem_is at e))
          (decapsulated bob.ik_seed coins_ik (rw bob.ik_kem_is at f))
        ∙ rw
            (
              alice.ik_x_is,
              bob.ik_x_is,
              bob.spk_x_is,
              laws.x25519_comm bob.spk_secret alice.ik_secret,
              laws.x25519_comm bob.ik_secret ek_secret,
              laws.x25519_comm bob.spk_secret ek_secret,
            )
            refl)
