-- ===== src/Tests/Core.antt =====
-- The theorems on core/src/ outside the ratchet at concrete inputs.
use vurn_server.Prelude.{
  ℕ, ◌≡◌, ◌↔◌, refl, true, Option, none, some, [], ◌∷◌, ◌++◌, arith, length, replicate, ok,
  to_option,
}
use vurn_server.Prelude.Bytes.{Bytes}
use vurn_server.Ratchet.Kdf.{x25519_keypair, kem_encapsulate, x25519_shared}
use vurn_server.Signing.{
  sign_message, verify_message, sign_raw, split_payload, public_key_len, signature_len,
}
use vurn_server.Signing.RoundTrip.{verify_raw-sign_raw, verify_message_iff}
use vurn_server.Package.{serialize_package, encrypt, decrypt, encrypt_symmetric}
use vurn_server.Package.RoundTrip.{decrypt-encrypt_package}
use vurn_server.Identity.{
  IdentityBundle, RotatedPrekey, same_identity, verify_prekey, rotate_signed_prekey,
}
use vurn_server.Identity.RoundTrip.{IsComplete}
use vurn_server.Identity.Prekey.{complete-is_v9, verify_prekey_lem, rotate_signed_prekey_lem}
use vurn_server.Bootstrap.{
  hkdf_sha256, init_info, InitiatorOutput, session_id_from, initiator_bootstrap,
  responder_bootstrap, build_init_envelope, parse_init_envelope,
}
use vurn_server.Bootstrap.Agreement.{arr32_lem, IsOwned, bootstraps_agree}
use vurn_server.Bootstrap.Envelope.{parse_init_envelope-build_init_envelope}
use vurn_server.Tests.Toy.{fit, length-fit, toy, toy-CryptoLaws}

abbrev hello : Bytes
hello = 104 ∷ 105 ∷ []

-- A signing seed of the right length
abbrev seed : Bytes
seed = replicate 32 6

abbrev bytes_of : Option Bytes → Bytes
bytes_of none = []
bytes_of (some b) = b

abbrev signed : Bytes
signed = bytes_of (to_option (sign_message toy seed hello))

signed_is : sign_message toy seed hello ≡ ok signed
unfolding sign_message
signed_is = refl

verify_message_iff_example : (verify_message toy (fit 2592 seed) signed ≡ ok hello) ↔ (
    (sig : Bytes) × (split_payload signed ≡ some (sig, hello))
    × (length (fit 2592 seed) ≡ public_key_len)
    × (length sig ≡ signature_len)
    × (toy.dsa_verify (fit 2592 seed) hello sig ≡ true))
verify_message_iff_example = verify_message_iff toy (fit 2592 seed) signed hello

raw_is : sign_raw toy seed hello ≡ ok (fit 4627 seed)
unfolding sign_raw
raw_is = refl

abbrev pub nonce : Bytes
nonce = replicate 12 1

abbrev encrypted : Bytes
encrypted =
    serialize_package (fit 1568 (3 ∷ [])) nonce (fit 16 (fit 32 (fit 1568 (3 ∷ []))) ++ hello)

encrypted_is : encrypt toy (3 ∷ []) nonce (fit 1568 (2 ∷ [])) hello ≡ ok encrypted
unfolding encrypt
encrypted_is = ground (arith, length-fit 1568 (2 ∷ []))

decrypt-encrypt_package_example : decrypt toy (fit 3168 (2 ∷ [])) encrypted ≡ ok hello
decrypt-encrypt_package_example =
    decrypt-encrypt_package toy-CryptoLaws (2 ∷ []) (3 ∷ []) nonce hello refl encrypted_is

abbrev stored : Bytes
stored = nonce ++ (fit 16 hello ++ hello)

stored_is : encrypt_symmetric toy nonce hello hello ≡ some stored
unfolding encrypt_symmetric
stored_is = refl

-- The identity with the secrets that are seeded by `i`.
abbrev pub identity_of : ℕ → IdentityBundle
identity_of i = record {
  ik_kem = fit 1568 (i ∷ []);
  ik_x = fit 32 (i ∷ []);
  sig_pk = fit 2592 seed;
  spk_kem = fit 1568 (i ∷ i ∷ []);
  spk_x = fit 32 (i ∷ i ∷ []);
  spk_sig = fit 4627 seed;
}

pub identity-IsComplete : (i : ℕ) → IsComplete (identity_of i)
identity-IsComplete i = record {
  ik_kem_length = length-fit 1568 (i ∷ []);
  ik_x_length = length-fit 32 (i ∷ []);
  sig_pk_length = length-fit 2592 seed;
  spk_kem_length = length-fit 1568 (i ∷ i ∷ []);
  spk_x_length = length-fit 32 (i ∷ i ∷ []);
  spk_sig_length = length-fit 4627 seed;
}

raw_any : (bytes : Bytes) → sign_raw toy seed bytes ≡ ok (fit 4627 seed)
unfolding sign_raw
raw_any bytes = refl

identity_verified : (i : ℕ) → verify_prekey toy (identity_of i) ≡ ok tt
identity_verified i =
    verify_prekey_lem toy (identity_of i) (identity-IsComplete i)
      (verify_raw-sign_raw toy-CryptoLaws seed _ (raw_any _))

-- The identity 1 behind a rotation.
abbrev rotated : RotatedPrekey
rotated = record {
  bundle = record (identity_of 1) {
    spk_kem = fit 1568 (3 ∷ []);
    spk_x = fit 32 (4 ∷ []);
    spk_sig = fit 4627 seed;
  };
  spk_kem_sk = fit 3168 (3 ∷ []);
  spk_x_sk = 4 ∷ [];
}

rotated_is :
    rotate_signed_prekey toy
      (3 ∷ [])
      (4 ∷ [])
      (fit 1568 (1 ∷ []))
      (fit 32 (1 ∷ []))
      (fit 2592 seed)
      seed
    ≡ ok rotated
unfolding rotate_signed_prekey x25519_keypair sign_raw
rotated_is = refl

rotate_signed_prekey_example :
    (same_identity rotated.bundle (identity_of 1) ≡ true)
    × IsComplete rotated.bundle
    × (verify_prekey toy rotated.bundle ≡ ok tt)
    × ((rotated.bundle.spk_kem, rotated.spk_kem_sk) ≡ toy.kem_generate (3 ∷ []))
    × (rotated.bundle.spk_x ≡ toy.x25519_public rotated.spk_x_sk)
rotate_signed_prekey_example =
    rotate_signed_prekey_lem toy-CryptoLaws (3 ∷ []) (4 ∷ []) seed (identity_of 1)
      (identity-IsComplete 1) refl rotated_is

parse_init_envelope-build_init_envelope_example :
    parse_init_envelope (build_init_envelope (identity_of 1) (fit 1568 []) (fit 1568 hello) hello)
    ≡ ok (record {
      bundle = identity_of 1;
      ct_spk = fit 1568 [];
      ct_ik = fit 1568 hello;
      pkg = hello;
    })
parse_init_envelope-build_init_envelope_example =
    parse_init_envelope-build_init_envelope (identity_of 1) (fit 1568 []) (fit 1568 hello) hello
      (identity-IsComplete 1) (length-fit 1568 []) (length-fit 1568 hello) (omega arith)

abbrev owned : (i : ℕ) → IsOwned toy-CryptoLaws (identity_of i)
owned i = record {
  complete = identity-IsComplete i;
  verified = identity_verified i;
  ik_seed = i ∷ [];
  spk_seed = i ∷ i ∷ [];
  ik_secret = i ∷ [];
  spk_secret = i ∷ i ∷ [];
  ik_kem_is = refl;
  spk_kem_is = refl;
  ik_x_is = refl;
  spk_x_is = refl;
}

-- What the initiator 1 computes for the responder 2.
abbrev out : InitiatorOutput
out = record {
  root =
      hkdf_sha256 toy
        (fit 32 []
          ++ fit 32 []
          ++ fit 32 []
          ++ fit 32 (fit 1568 (5 ∷ []))
          ++ fit 32 (fit 1568 (6 ∷ [])))
        init_info;
  session_id = session_id_from toy (fit 32 (1 ∷ [])) (fit 32 (2 ∷ []));
  ct_spk = fit 1568 (5 ∷ []);
  ct_ik = fit 1568 (6 ∷ []);
}

encapsulated :
    (b coins : Bytes)
    → kem_encapsulate toy (fit 1568 b) coins ≡ ok (fit 1568 coins, fit 32 (fit 1568 coins))
unfolding kem_encapsulate
encapsulated b coins = ground (arith, length-fit 1568 b)

out_is :
    initiator_bootstrap toy
      (5 ∷ [])
      (6 ∷ [])
      (fit 32 (1 ∷ []), 1 ∷ [])
      (fit 32 (9 ∷ []), 9 ∷ [])
      (identity_of 2)
    ≡ ok out
unfolding initiator_bootstrap x25519_shared
out_is =
    rw
      (
        complete-is_v9 (identity_of 2) (identity-IsComplete 2),
        identity_verified 2,
        arr32_lem (fit 32 (2 ∷ 2 ∷ [])) (length-fit 32 (2 ∷ 2 ∷ [])),
        arr32_lem (fit 32 (2 ∷ [])) (length-fit 32 (2 ∷ [])),
        encapsulated (2 ∷ 2 ∷ []) (5 ∷ []),
        encapsulated (2 ∷ []) (6 ∷ []),
      )
      refl

bootstraps_agree_example :
    responder_bootstrap toy
      (fit 32 (2 ∷ []), 2 ∷ [])
      (fit 32 (2 ∷ 2 ∷ []), 2 ∷ 2 ∷ [])
      (fit 3168 (2 ∷ []))
      (fit 3168 (2 ∷ 2 ∷ []))
      (identity_of 1)
      (fit 32 (9 ∷ []))
      out.ct_spk
      out.ct_ik
    ≡ ok (out.root, out.session_id)
bootstraps_agree_example =
    bootstraps_agree toy-CryptoLaws (5 ∷ []) (6 ∷ []) (9 ∷ []) (identity_of 1) (identity_of 2)
      (owned 1) (owned 2) out_is
