-- ===== src/Tests/Toy.antt =====
-- Primitives that are no cryptography but have the lengths and the inverses that the laws of the
-- third-party crates state.
use vurn_server.Prelude.{
  ℕ, zero, suc, ◌≡◌, refl, ap, true, Option, none, some, [], ◌∷◌, ◌++◌, arith, length, take, drop,
  length-append, take-append, drop-append,
}
use vurn_server.Prelude.Bytes.{Bytes}
use vurn_server.Crypto.{Crypto, CryptoLaws}
use vurn_server.Dht.{Net, NetLaws, DhtEnvelope}

unfoldable pub fit : ℕ → Bytes → Bytes
fit zero b = []
fit (suc n) [] = 0 ∷ fit n []
fit (suc n) (x ∷ xs) = x ∷ fit n xs

pub length-fit : (n : ℕ) (b : Bytes) → length (fit n b) ≡ n
unfolding fit
length-fit zero b = refl
length-fit (suc n) [] = ap suc (length-fit n [])
length-fit (suc n) (x ∷ xs) = ap suc (length-fit n xs)

abbrev pub toy : Crypto
toy = record {
  hmac = λ k d. fit 32 (d ++ k);
  sha256 = fit 32;
  x25519_public = fit 32;
  x25519 = λ a b. fit 32 [];
  kem_generate = λ seed. (fit 1568 seed, fit 3168 seed);
  kem_encapsulate = λ pk coins. some (fit 1568 coins, fit 32 (fit 1568 coins));
  kem_decapsulate = λ sk ct. some (fit 32 ct);
  aead_seal = λ k n a m. some (fit 16 k ++ m);
  aead_open = λ k n a ct. some (drop 16 ct);
  dsa_public = fit 2592;
  dsa_sign = λ seed m. some (fit 4627 seed);
  dsa_verify = λ pk m sig. true;
}

some_inj : {A : Type 0} {x y : A} → some x ≡ some y → x ≡ y
some_inj h = cc h

pub toy-CryptoLaws : CryptoLaws toy
toy-CryptoLaws = record {
  hmac_length = λ k d. length-fit 32 (d ++ k);
  sha256_length = length-fit 32;
  public_length = length-fit 32;
  x25519_comm = λ a b. refl;
  kem_public_length = length-fit 1568;
  kem_secret_length = length-fit 3168;
  kem_ciphertext_length =
      λ pk coins h. rw (← ap (λ (p : Bytes × Bytes). p.0) (some_inj h)) (length-fit 1568 coins);
  kem_correct = λ seed coins h.
      rw
        (
          ← ap (λ (p : Bytes × Bytes). p.0) (some_inj h),
          ← ap (λ (p : Bytes × Bytes). p.1) (some_inj h),
        )
        refl;
  seal_length = λ k n a m {ct} h.
      rw (← some_inj h) (omega (arith, length-append (fit 16 k) m, length-fit 16 k));
  open-seal =
      λ k n a m {ct} h. rw (← some_inj h) (ap some (drop-append 16 (fit 16 k) m (length-fit 16 k)));
  dsa_public_length = length-fit 2592;
  signature_length = λ seed m {sig} h. rw (← some_inj h) (length-fit 4627 seed);
  verify-sign = λ seed m h. refl;
}

-- The encoding of an envelope: its fields with their lengths before them, as numbers.
abbrev framed : Bytes → Bytes → Bytes
framed b rest = length b ∷ (b ++ rest)

abbrev pub encode_envelope : DhtEnvelope → Bytes
encode_envelope e = e.seq ∷ framed e.payload (framed e.sender_pubkey e.signature)

abbrev decode_parts : ℕ → Bytes → Bytes → Option DhtEnvelope
decode_parts seq payload [] = none
decode_parts seq payload (key_len ∷ tail) = some (record {
  payload = payload;
  seq = seq;
  sender_pubkey = take key_len tail;
  signature = drop key_len tail;
})

abbrev pub decode_envelope : Bytes → Option DhtEnvelope
decode_envelope (seq ∷ payload_len ∷ rest) =
    decode_parts seq (take payload_len rest) (drop payload_len rest)
decode_envelope _ = none

abbrev pub toy_net : Net
toy_net = record {
  ed_public = fit 32;
  ed_is_key = λ pk. true;
  ed_sign = λ sk m. fit 64 m;
  ed_verify = λ pk m sig. true;
  serialize_envelope = λ e. some (encode_envelope e);
  deserialize_envelope = decode_envelope;
  serialize_hashes = some;
  deserialize_hashes = some;
  query_id = λ n. n;
}

decode_encode : (e : DhtEnvelope) → decode_envelope (encode_envelope e) ≡ some e
decode_encode e =
    rw (drop-append (length e.payload) e.payload (framed e.sender_pubkey e.signature) refl) (
      rw (take-append (length e.payload) e.payload (framed e.sender_pubkey e.signature) refl) (
        rw (drop-append (length e.sender_pubkey) e.sender_pubkey e.signature refl)
          (rw (take-append (length e.sender_pubkey) e.sender_pubkey e.signature refl) refl)))

pub toy_net-NetLaws : NetLaws toy_net
toy_net-NetLaws = record {
  ed_public_length = length-fit 32;
  ed_public_is_key = λ sk. refl;
  ed_signature_length = λ sk m. length-fit 64 m;
  ed_verify-ed_sign = λ sk m. refl;
  deserialize-serialize = λ e {bytes} h. rw (← some_inj h) (decode_encode e);
}
