-- ===== src/Crypto.antt =====
-- The third-party primitives that core/ calls: the crates hmac, sha2, x25519-dalek, ml-kem,
-- aes-gcm and ml-dsa. Their code is not in the repository, so they are a parameter of the model.
-- Randomness is an argument: the bytes that the generator returned for the call.
use vurn_server.Prelude.{◌+◌, ◌≡◌, Bool, true, Option, some, length}
use vurn_server.Prelude.Bytes.{Bytes}

pub record Crypto : Type 0 where
  -- HMAC-SHA256 of a key and data, and SHA-256
  pub hmac : Bytes → Bytes → Bytes
  pub sha256 : Bytes → Bytes
  -- X25519: the public key of a secret, and the shared secret of a secret and a public key
  pub x25519_public : Bytes → Bytes
  pub x25519 : Bytes → Bytes → Bytes
  -- ML-KEM-1024: key generation, from a seed, as (public, secret); encapsulation to a public key
  -- as (ciphertext, secret); decapsulation with a secret key
  pub kem_generate : Bytes → Bytes × Bytes
  pub kem_encapsulate : Bytes → Bytes → Option (Bytes × Bytes)
  pub kem_decapsulate : Bytes → Bytes → Option Bytes
  -- AES-256-GCM with key, nonce, associated data and message
  pub aead_seal : Bytes → Bytes → Bytes → Bytes → Option Bytes
  pub aead_open : Bytes → Bytes → Bytes → Bytes → Option Bytes
  -- ML-DSA-87: the public key of a seed, signing with a seed, verification of encoded values
  pub dsa_public : Bytes → Bytes
  pub dsa_sign : Bytes → Bytes → Option Bytes
  pub dsa_verify : Bytes → Bytes → Bytes → Bool

-- What their documentation promises, as far as a theorem relies on it.
pub record CryptoLaws (c : Crypto) : Type 0 where
  pub hmac_length : (k d : Bytes) → length (c.hmac k d) ≡ 32
  pub sha256_length : (d : Bytes) → length (c.sha256 d) ≡ 32
  pub public_length : (sk : Bytes) → length (c.x25519_public sk) ≡ 32
  pub x25519_comm : (a b : Bytes) → c.x25519 a (c.x25519_public b) ≡ c.x25519 b (c.x25519_public a)
  pub kem_public_length : (seed : Bytes) → length (c.kem_generate seed).0 ≡ 1568
  pub kem_secret_length : (seed : Bytes) → length (c.kem_generate seed).1 ≡ 3168
  pub kem_ciphertext_length :
      (pk coins : Bytes) {ct ss : Bytes}
      → c.kem_encapsulate pk coins ≡ some (ct, ss)
      → length ct ≡ 1568
  pub kem_correct :
      (seed coins : Bytes) {ct ss : Bytes}
      → c.kem_encapsulate (c.kem_generate seed).0 coins ≡ some (ct, ss)
      → c.kem_decapsulate (c.kem_generate seed).1 ct ≡ some ss
  pub seal_length :
      (k n a m : Bytes) {ct : Bytes} → c.aead_seal k n a m ≡ some ct → length ct ≡ length m + 16
  pub open-seal :
      (k n a m : Bytes) {ct : Bytes} → c.aead_seal k n a m ≡ some ct → c.aead_open k n a ct ≡ some m
  pub dsa_public_length : (seed : Bytes) → length (c.dsa_public seed) ≡ 2592
  pub signature_length :
      (seed m : Bytes) {sig : Bytes} → c.dsa_sign seed m ≡ some sig → length sig ≡ 4627
  pub verify-sign :
      (seed m : Bytes) {sig : Bytes}
      → c.dsa_sign seed m ≡ some sig
      → c.dsa_verify (c.dsa_public seed) m sig ≡ true
