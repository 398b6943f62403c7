-- ===== src/Ratchet/FirstContact.antt =====
-- The first message of a session of core/src/ratchet.rs.
use vurn_server.Prelude.{◌≡◌, refl, sym, ap, ◌∙◌, true, none, some, [], arith, ok}
use vurn_server.Prelude.Bytes.{Bytes, bytes_eq_refl}
use vurn_server.Prelude.SortedMap.{get}
use vurn_server.Crypto.{Crypto, CryptoLaws}
use vurn_server.Ratchet.{StoreKey, Session, SessionStart, store_order}
use vurn_server.Ratchet.Kdf.{root_step}
use vurn_server.Ratchet.Header.{Header}
use vurn_server.Ratchet.Chains.{advertised_of, fresh, start_alice, start_bob}
use vurn_server.Ratchet.Encrypt.{Draws, encrypt}
use vurn_server.Ratchet.Decrypt.{initialize, is_new_chain, align, arrive, decrypt}
use vurn_server.Ratchet.Sent.{IsSent, encrypt_open-IsSent}
use vurn_server.Ratchet.InOrder.{IsSender, sent_fields}
use vurn_server.Ratchet.Conversation.{InStep, reached-InStep, open_send_chain_open}

module _ {c : Crypto} (laws : CryptoLaws c) where
  -- The initiator's session.
  abbrev started : SessionStart → Bytes → Session
  started start peer =
      let (rk, ck) = root_step c start.root (c.x25519 start.our_dh.1 peer) in
      record (fresh start (some peer) (advertised_of start.our_kem) true) {
        rk = rk;
        ck_s = some ck;
      }

  start_alice-some :
      (start : SessionStart) {peer : Bytes}
      → start.peer_dh ≡ some peer
      → start_alice c start ≡ some (started start peer)
  unfolding start_alice
  start_alice-some start h = ground arith

  -- The responder's session once it has seen the initiator's key.
  abbrev contacted : Bytes → SessionStart → Bytes → Session
  contacted kem_seed start peer =
      let (rk, ck) = root_step c start.root (c.x25519 start.our_dh.1 peer) in
      record (fresh start (some peer) (advertised_of (some (c.kem_generate kem_seed))) true) {
        rk = rk;
        ck_r = some ck;
      }

  arrive_first :
      (kem_seed : Bytes) (start : SessionStart) (h : Header)
      → h.n ≡ 0
      → arrive c h (start_bob c kem_seed start) ≡ (ok tt, contacted kem_seed start h.dh_pub)
  unfolding arrive initialize align is_new_chain start_bob
  arrive_first kem_seed start h n = ground (arith, bytes_eq_refl h.dh_pub)

  get-nil : (k : StoreKey) → get {V = Bytes} store_order [] k ≡ none
  unfolding get
  get-nil k = refl

  none_stored :
      (kem_seed : Bytes) (start : SessionStart) (k : StoreKey)
      → get store_order (start_bob c kem_seed start).skipped k ≡ none
  unfolding start_bob get
  none_stored kem_seed start k = refl

  IsSent-by_started :
      (d : Draws) (pt : Bytes) (alice bob : SessionStart) (a : Session) {pkg : Bytes} {a' : Session}
      → start_alice c alice ≡ some a
      → alice.peer_dh ≡ some bob.our_dh.0
      → encrypt c d pt a ≡ (ok pkg, a')
      → IsSent c d pt (started alice bob.our_dh.0) pkg a'
  unfolding encrypt
  IsSent-by_started d pt alice bob a go peer sent =
      let a1 = started alice bob.our_dh.0 in
      let same : a ≡ a1 = cc (start_alice-some alice peer) in
      encrypt_open-IsSent c d pt a1
        (rw (open_send_chain_open laws d.dh_secret a1 refl) at (rw same at sent))

  module _ (alice bob : SessionStart) (ka : alice.our_dh.0 ≡ c.x25519_public alice.our_dh.1)
      (kb : bob.our_dh.0 ≡ c.x25519_public bob.our_dh.1) (root : alice.root ≡ bob.root)
      (id : alice.session_id ≡ bob.session_id) where
    agreed : c.x25519 bob.our_dh.1 alice.our_dh.0 ≡ c.x25519 alice.our_dh.1 bob.our_dh.0
    agreed = rw (ka, kb) (laws.x25519_comm bob.our_dh.1 alice.our_dh.1)

    sender : IsSender (started alice bob.our_dh.0)
    sender = record {
      pn_fits = omega arith;
      n_fits = omega arith;
      key_length = rw ka (laws.public_length alice.our_dh.1);
    }

    same_seed :
        root_step c bob.root (c.x25519 bob.our_dh.1 alice.our_dh.0)
        ≡ root_step c alice.root (c.x25519 alice.our_dh.1 bob.our_dh.0)
    same_seed = rw (agreed, root)

    from_started :
        (d : Draws) (pt kem_seed : Bytes) {pkg : Bytes} {a' : Session}
        → IsSent c d pt (started alice bob.our_dh.0) pkg a'
        → (b' : Session) × (decrypt c pkg (start_bob c kem_seed bob) ≡ (ok pt, b'))
          × InStep laws a' b'
          × (b'.rk ≡ (contacted kem_seed bob alice.our_dh.0).rk)
          × (b'.skipped ≡ (contacted kem_seed bob alice.our_dh.0).skipped)
          × (b'.kem_advertised ≡ (contacted kem_seed bob alice.our_dh.0).kem_advertised)
    from_started d pt kem_seed s =
        reached-InStep laws d pt (started alice bob.our_dh.0) (start_bob c kem_seed bob)
          (contacted kem_seed bob alice.our_dh.0) s sender (omega arith)
          (none_stored kem_seed bob (alice.our_dh.0, 0))
          (arrive_first kem_seed bob (sent_fields laws d pt (started alice bob.our_dh.0) s.kem)
            refl)
          (ap (λ (p : Bytes × Bytes). some p.1) same_seed ∙ s.chain) refl (sym id) refl refl tt
          (λ n _. get-nil (alice.our_dh.0, n))

  -- From the same root and session id, with the initiator given the responder's key, the
  -- initiator's first package decrypts at a fresh responder, both derive the same root key, and
  -- the sessions are in step.
  pub decrypt-encrypt_first :
      (d : Draws) (pt kem_seed : Bytes) (alice bob : SessionStart) (a : Session) {pkg : Bytes}
      {a' : Session}
      → start_alice c alice ≡ some a
      → alice.our_dh.0 ≡ c.x25519_public alice.our_dh.1
      → bob.our_dh.0 ≡ c.x25519_public bob.our_dh.1
      → alice.peer_dh ≡ some bob.our_dh.0
      → alice.root ≡ bob.root
      → alice.session_id ≡ bob.session_id
      → encrypt c d pt a ≡ (ok pkg, a')
      → (b' : Session) × (decrypt c pkg (start_bob c kem_seed bob) ≡ (ok pt, b'))
        × InStep laws a' b'
        × (b'.rk ≡ a'.rk)
  decrypt-encrypt_first d pt kem_seed alice bob a go ka kb peer root id sent =
      let s = IsSent-by_started d pt alice bob a go peer sent in
      let (b', done, step, rk, _, _) = from_started alice bob ka kb root id d pt kem_seed s in
      (
        b',
        done,
        step,
        rk ∙ ap (λ (p : Bytes × Bytes). p.0) (same_seed alice bob ka kb root id) ∙ sym s.same_root,
      )
