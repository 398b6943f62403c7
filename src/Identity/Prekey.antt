-- ===== src/Identity/Prekey.antt =====
-- core/src/identity.rs: the signed prekey.
use vurn_server.Prelude.{
  ℕ, suc, ◌≡◌, refl, some, [], true, ◌++◌, ◌∷◌, arith, inl, inr, Result-cases, length, ok,
}
use vurn_server.Prelude.Bytes.{Bytes, bytes_eq_refl}
use vurn_server.Crypto.{Crypto, CryptoLaws}
use vurn_server.Ratchet.Kdf.{x25519_keypair}
use vurn_server.Signing.{sign_raw, verify_raw}
use vurn_server.Signing.RoundTrip.{verify_raw-sign_raw}
use vurn_server.Identity.{
  IdentityBundle, not_empty, RotatedPrekey, same_identity, is_v9, verify_prekey,
  rotate_signed_prekey,
}
use vurn_server.Identity.RoundTrip.{IsComplete}

not_empty_lem : (xs : Bytes) (n : ℕ) → length xs ≡ suc n → not_empty xs ≡ true
not_empty_lem [] n h = absurd (omega arith)
not_empty_lem (x ∷ xs) n h = refl

pub complete-is_v9 : (a : IdentityBundle) → IsComplete a → is_v9 a ≡ true
unfolding is_v9
complete-is_v9 a i =
    rw
      (
        not_empty_lem a.ik_x 31 i.ik_x_length,
        not_empty_lem a.spk_kem 1567 i.spk_kem_length,
        not_empty_lem a.spk_x 31 i.spk_x_length,
        not_empty_lem a.spk_sig 4626 i.spk_sig_length,
      )
      refl

same_identity_lem :
    (a b : IdentityBundle)
    → a.ik_kem ≡ b.ik_kem
    → a.ik_x ≡ b.ik_x
    → a.sig_pk ≡ b.sig_pk
    → same_identity a b ≡ true
unfolding same_identity
same_identity_lem a b h k l =
    rw (h, k, l, bytes_eq_refl b.ik_kem, bytes_eq_refl b.ik_x, bytes_eq_refl b.sig_pk) refl

pub verify_prekey_lem :
    (c : Crypto) (a : IdentityBundle)
    → IsComplete a
    → verify_raw c a.sig_pk (a.spk_kem ++ a.spk_x) a.spk_sig ≡ ok tt
    → verify_prekey c a ≡ ok tt
unfolding verify_prekey
verify_prekey_lem c a i h = rw (complete-is_v9 a i, h) refl

-- The bundle whose prekey is the given one.
abbrev with_prekey : IdentityBundle → Bytes → Bytes → Bytes → IdentityBundle
with_prekey a spk_kem spk_x spk_sig = record a {
  spk_kem = spk_kem;
  spk_x = spk_x;
  spk_sig = spk_sig;
}

rotated :
    (c : Crypto) (seed secret sig_seed : Bytes) (a : IdentityBundle) {r : RotatedPrekey}
    → rotate_signed_prekey c seed secret a.ik_kem a.ik_x a.sig_pk sig_seed ≡ ok r
    → (sig : Bytes) × (sign_raw c sig_seed ((c.kem_generate seed).0 ++ c.x25519_public secret)
        ≡ ok sig)
      × (r ≡ record {
        bundle = with_prekey a (c.kem_generate seed).0 (c.x25519_public secret) sig;
        spk_kem_sk = (c.kem_generate seed).1;
        spk_x_sk = secret;
      })
unfolding rotate_signed_prekey x25519_keypair
rotated c seed secret sig_seed a h =
    elim (Result-cases (sign_raw c sig_seed ((c.kem_generate seed).0 ++ c.x25519_public secret))) [
      | inl (sig, e) ↦ (sig, e, ground arith)
      | inr (x, e) ↦ ground arith
    ]

sign_raw_made :
    (c : Crypto) (seed bytes : Bytes) {sig : Bytes}
    → sign_raw c seed bytes ≡ ok sig
    → c.dsa_sign seed bytes ≡ some sig
unfolding sign_raw
sign_raw_made c seed bytes h = ground arith

module _ {c : Crypto} (laws : CryptoLaws c) where
  -- A complete bundle whose prekey was rotated with the seed of its own signing key is the same
  -- identity, complete, and its prekey signature verifies; the secrets that come with it are
  -- those of the prekey.
  pub rotate_signed_prekey_lem :
      (seed secret sig_seed : Bytes) (a : IdentityBundle) {r : RotatedPrekey}
      → IsComplete a
      → a.sig_pk ≡ c.dsa_public sig_seed
      → rotate_signed_prekey c seed secret a.ik_kem a.ik_x a.sig_pk sig_seed ≡ ok r
      → (same_identity r.bundle a ≡ true)
        × IsComplete r.bundle
        × (verify_prekey c r.bundle ≡ ok tt)
        × ((r.bundle.spk_kem, r.spk_kem_sk) ≡ c.kem_generate seed)
        × (r.bundle.spk_x ≡ c.x25519_public r.spk_x_sk)
  rotate_signed_prekey_lem seed secret sig_seed a i own h =
      let (sig, made, is) = rotated c seed secret sig_seed a h in
      let b = with_prekey a (c.kem_generate seed).0 (c.x25519_public secret) sig in
      let complete : IsComplete b = record {
        ik_kem_length = i.ik_kem_length;
        ik_x_length = i.ik_x_length;
        sig_pk_length = i.sig_pk_length;
        spk_kem_length = laws.kem_public_length seed;
        spk_x_length = laws.public_length secret;
        spk_sig_length = laws.signature_length sig_seed _ (sign_raw_made c sig_seed _ made);
      } in
      rw is (
        same_identity_lem b a refl refl refl,
        complete,
        verify_prekey_lem c b complete (rw own (verify_raw-sign_raw laws sig_seed _ made)),
        refl,
        refl,
      )
