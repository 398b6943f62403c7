-- ===== src/Ratchet/Delivery.antt =====
-- What one side of core/src/ratchet.rs encrypts, the other side decrypts.
use vurn_server.Prelude.{
  ◌≤◌, ◌≡◌, inl, inr, Option, none, some, List, [], ◌∷◌, arith, length, ok, Option-cases,
  ok_or-eq-ok,
}
use vurn_server.Prelude.Bytes.{Bytes}
use vurn_server.Crypto.{Crypto, CryptoLaws}
use vurn_server.Ratchet.{auth_failed, AdvertisedKem, Session, kem_ct_len}
use vurn_server.Ratchet.Kdf.{mix_kem, kem_encapsulate, kem_decapsulate, aead_encrypt, aead_decrypt}
use vurn_server.Ratchet.Header.RoundTrip.{HasLength}
use vurn_server.Ratchet.Encrypt.{Encapsulated, encapsulate_to}
use vurn_server.Ratchet.Decrypt.{decapsulations, candidates, try_open, open_aead}

module _ {c : Crypto} (laws : CryptoLaws c) where
  -- AES-GCM opens what it sealed under the same message key.
  aead_decrypt-aead_encrypt :
      (id header mk pt : Bytes) {ct : Bytes}
      → aead_encrypt c id header mk pt ≡ ok ct
      → aead_decrypt c id header mk ct ≡ ok pt
  unfolding aead_encrypt aead_decrypt
  aead_decrypt-aead_encrypt id header mk pt h =
      rw (laws.open-seal _ _ _ pt (ok_or-eq-ok auth_failed _ h))

  pub aead_encrypt-length :
      (id header mk pt : Bytes) {ct : Bytes}
      → aead_encrypt c id header mk pt ≡ ok ct
      → 16 ≤ length ct
  unfolding aead_encrypt
  aead_encrypt-length id header mk pt h =
      omega (arith, laws.seal_length _ _ _ pt (ok_or-eq-ok auth_failed _ h))

  -- The receiver's newest advertised key is the pair whose public half the sender has.
  abbrev pub KemReady : Option Bytes → List AdvertisedKem → Type 0
  KemReady none advs = Unit
  KemReady (some pk) [] = ⊥
  KemReady (some pk) (adv ∷ advs) =
      (seed : Bytes) × (pk ≡ (c.kem_generate seed).0) × (adv.sk ≡ (c.kem_generate seed).1)

  encapsulate_to-some :
      (coins pk : Bytes) (kem : Encapsulated)
      → encapsulate_to c coins (some pk) ≡ ok kem
      → (ct : Bytes) × (ss : Bytes) × (kem ≡ record { ct = some ct; ss = some ss })
        × (c.kem_encapsulate pk coins ≡ some (ct, ss))
  unfolding encapsulate_to kem_encapsulate
  encapsulate_to-some coins pk kem h = elim (Option-cases (c.kem_encapsulate pk coins)) [
    | inl e ↦ absurd (ground arith)
    | inr ((ct, ss), e) ↦ (ct, ss, ground arith, e)
  ]

  encapsulate_to-none :
      (coins : Bytes) (kem : Encapsulated)
      → encapsulate_to c coins none ≡ ok kem
      → kem ≡ record { ct = none; ss = none }
  unfolding encapsulate_to
  encapsulate_to-none coins kem h = cc

  pub encapsulate_to-length :
      (coins : Bytes) (peer : Option Bytes) (kem : Encapsulated)
      → encapsulate_to c coins peer ≡ ok kem
      → HasLength kem_ct_len kem.ct
  encapsulate_to-length coins none kem h = rw (encapsulate_to-none coins kem h) tt
  encapsulate_to-length coins (some pk) kem h =
      let (ct, ss, e, made) = encapsulate_to-some coins pk kem h in
      rw e (laws.kem_ciphertext_length pk coins made)

  -- The receiver's newest secret key gives the sender's secret.
  candidates-KemReady :
      (advs : List AdvertisedKem) (coins pk ct ss : Bytes)
      → KemReady (some pk) advs
      → c.kem_encapsulate pk coins ≡ some (ct, ss)
      → (sss : List (Option Bytes)) × (candidates c advs (some ct) ≡ some ss ∷ sss)
  unfolding candidates decapsulations kem_decapsulate
  candidates-KemReady [] coins pk ct ss k made = absurd k
  candidates-KemReady (adv ∷ advs) coins pk ct ss (seed, same_pk, same_sk) made =
      let made' = rw same_pk at made in
      (
        decapsulations c advs ct,
        ground (
          arith,
          same_sk,
          laws.kem_secret_length seed,
          laws.kem_ciphertext_length pk coins made,
          laws.kem_correct seed coins made',
        ),
      )

  try_open-first :
      (ss : Option Bytes) (sss : List (Option Bytes)) (id header mk pt : Bytes) {ct : Bytes}
      → aead_encrypt c id header (mix_kem c mk ss) pt ≡ ok ct
      → try_open c (ss ∷ sss) id header mk ct ≡ ok pt
  unfolding try_open
  try_open-first ss sss id header mk pt h =
      rw (try_open, aead_decrypt-aead_encrypt id header (mix_kem c mk ss) pt h)

  -- The receiver's first candidate is the secret that the sender mixed in.
  pub open_aead-seal :
      (coins : Bytes) (peer : Option Bytes) (kem : Encapsulated) (s : Session)
      (header mk pt : Bytes) {ct : Bytes}
      → encapsulate_to c coins peer ≡ ok kem
      → KemReady peer s.kem_advertised
      → aead_encrypt c s.session_id header (mix_kem c mk kem.ss) pt ≡ ok ct
      → open_aead c s header ct kem.ct mk ≡ ok pt
  unfolding open_aead candidates
  open_aead-seal coins none kem s header mk pt e k h =
      let none_made = encapsulate_to-none coins kem e in
      let h' = rw none_made at h in
      rw none_made (try_open-first none [] s.session_id header mk pt h')
  open_aead-seal coins (some pk) kem s header mk pt e k h =
      let (ct, ss, same, made) = encapsulate_to-some coins pk kem e in
      let (sss, found) = candidates-KemReady s.kem_advertised coins pk ct ss k made in
      let h' = rw same at h in
      rw (same, found) (try_open-first (some ss) sss s.session_id header mk pt h')
