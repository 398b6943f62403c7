-- ===== src/Ratchet/Encrypt.antt =====
-- core/src/ratchet.rs: `Session::encrypt`. What the source draws from the generator is an
-- argument: the secret of a new ratchet keypair, the seed of a new ML-KEM key and the coins of an
-- encapsulation. `n_s += 1` wraps, as it does in a release build.
use vurn_server.Prelude.{
  ℕ, ◌+◌, ◌%◌, Bool, false, Option, none, some, ◌∷◌, ◌++◌, if◌then◌else◌, take, Result, ok, err,
  is_some,
}
use vurn_server.Prelude.Bytes.{Bytes}
use vurn_server.Crypto.{Crypto}
use vurn_server.Ratchet.{DecryptError, no_state, u32_mod}
use vurn_server.Ratchet.Kdf.{chain_step, mix_kem, kem_keypair, kem_encapsulate, aead_encrypt}
use vurn_server.Ratchet.Header.{flag_dh, flag_kem_pk, flag_kem_ct, build_header}
use vurn_server.Ratchet.Step.{Step, lift, continue, ◌>>=◌}
use vurn_server.Ratchet.Chains.{open_send_chain}

pub record Draws : Type 0 where
  pub dh_secret : Bytes
  pub kem_seed : Bytes
  pub coins : Bytes

-- `FLAG_DH`, with each `flags |= …` that was made
abbrev pub send_flags : Bool → Bool → ℕ
send_flags pk ct = flag_dh + (if pk then flag_kem_pk else 0) + (if ct then flag_kem_ct else 0)

-- `Some(_)` of both parts of an encapsulation, or two `None`s
pub record Encapsulated : Type 0 where
  pub ct : Option Bytes
  pub ss : Option Bytes

module _ (c : Crypto) where
  -- The next message key and number of the sending chain.
  unfoldable pub next_send_key : Step (Bytes × ℕ)
  unfolding chain_step
  next_send_key s = elim s.ck_s [
    | none ↦ (err no_state, s)
    | some ck ↦
        let (mk, next) = chain_step c ck in
        (ok (mk, s.n_s), record s { ck_s = some next; n_s = (s.n_s + 1) % u32_mod })
  ]

  -- A fresh ML-KEM ratchet key to advertise, where one is due.
  unfoldable pub advertise : Bytes → Step (Option Bytes)
  unfolding kem_keypair
  advertise seed s =
      if s.advertise_kem_next
      then (let (pk, sk) = kem_keypair c seed in
          (
            ok (some pk),
            record s {
              kem_advertised = take 2 (record { pk = pk; sk = sk } ∷ s.kem_advertised);
              advertise_kem_next = false;
            },
          ))
      else (ok none, s)

  unfoldable pub encapsulate_to : Bytes → Option Bytes → Result DecryptError Encapsulated
  unfolding kem_encapsulate
  encapsulate_to coins none = ok (record { ct = none; ss = none })
  encapsulate_to coins (some peer_pk) = elim (kem_encapsulate c peer_pk coins) [
    | ok (ct, ss) ↦ ok (record { ct = some ct; ss = some ss })
    | err e ↦ err e
  ]

  -- The package of one message, once its keys are there.
  unfoldable pub seal_package :
      Bytes
      → Bytes
      → ℕ
      → ℕ
      → Bytes
      → Option Bytes
      → Encapsulated
      → Bytes
      → Result DecryptError Bytes
  seal_package session_id dh_pub pn n mk kem_pk kem plaintext =
      let flags = send_flags (is_some kem_pk) (is_some kem.ct) in
      let header = build_header flags pn n dh_pub kem_pk kem.ct in
      elim (aead_encrypt c session_id header (mix_kem c mk kem.ss) plaintext) [
        | ok ct ↦ ok (header ++ ct)
        | err e ↦ err e
      ]

  -- The rest of `encrypt`, once a sending chain was tried.
  unfoldable pub encrypt_open : Draws → Bytes → Step Bytes
  unfolding next_send_key advertise
  encrypt_open d plaintext = do
    (mk, n) ← next_send_key
    kem_pk ← advertise d.kem_seed
    λ t.
        continue (encapsulate_to d.coins t.kem_peer)
          (λ kem. lift (seal_package t.session_id t.dh_s.0 t.pn n mk kem_pk kem plaintext)) t

  unfoldable pub encrypt : Draws → Bytes → Step Bytes
  encrypt d plaintext s = encrypt_open d plaintext (open_send_chain c d.dh_secret s)
