-- ===== src/Ratchet/Conversation.antt =====
-- Two sessions of core/src/ratchet.rs that stay in step, message by message and turn by turn.
use vurn_server.Prelude.{ℕ, ◌+◌, ◌<◌, ◌≤◌, ◌≡◌, refl, sym, ◌∙◌, true, none, some, arith, ok}
use vurn_server.Prelude.Bytes.{Bytes, bytes_eq_refl}
use vurn_server.Prelude.SortedMap.{get}
use vurn_server.Crypto.{Crypto, CryptoLaws}
use vurn_server.Ratchet.{Session, store_order, u32_mod}
use vurn_server.Ratchet.Kdf.{chain_step, root_step}
use vurn_server.Ratchet.Header.{Header}
use vurn_server.Ratchet.Chains.{open_send_chain, skip_to, ratchet}
use vurn_server.Ratchet.Encrypt.{Draws, encrypt}
use vurn_server.Ratchet.Decrypt.{initialize, is_new_chain, align, arrive, adopt_kem, decrypt}
use vurn_server.Ratchet.Delivery.{KemReady}
use vurn_server.Ratchet.Sent.{IsSent, advertised, encrypt_open-IsSent}
use vurn_server.Ratchet.InOrder.{IsSender, sent_fields, received, delivers}

module _ {c : Crypto} (laws : CryptoLaws c) where
  -- `b` receives from the chain on which `a` sends, has had all that `a` sent on it, and no later
  -- message of it is in the store.
  pub record InStep (a b : Session) : Type 0 where
    pub sender : IsSender a
    pub initialized : b.initialized ≡ true
    pub same_id : b.session_id ≡ a.session_id
    pub ck : Bytes
    pub sending : a.ck_s ≡ some ck
    pub receiving : b.ck_r ≡ some ck
    pub same_key : b.dh_r ≡ some a.dh_s.0
    pub same_number : b.n_r ≡ a.n_s
    pub kem_ready : KemReady laws a.kem_peer b.kem_advertised
    pub not_stored : (n : ℕ) → a.n_s ≤ n → get store_order b.skipped (a.dh_s.0, n) ≡ none

  pub arrive-InStep :
      (b : Session) (h : Header)
      → b.initialized ≡ true
      → b.dh_r ≡ some h.dh_pub
      → b.n_r ≡ h.n
      → arrive c h b ≡ (ok tt, b)
  unfolding arrive initialize align is_new_chain
  arrive-InStep b h i k n = ground (arith, bytes_eq_refl h.dh_pub)

  pub open_send_chain_open :
      (secret : Bytes) (a : Session) {ck : Bytes}
      → a.ck_s ≡ some ck
      → open_send_chain c secret a ≡ a
  unfolding open_send_chain
  open_send_chain_open secret a h = ground arith

  -- A delivery to a receiver that reaches the sender's chain.
  pub reached-InStep :
      (d : Draws) (pt : Bytes) (a b b2 : Session) {pkg : Bytes} {a' : Session}
      → (s : IsSent c d pt a pkg a') → IsSender a
      → a.n_s + 1 < u32_mod
      → get store_order b.skipped (a.dh_s.0, a.n_s) ≡ none
      → arrive c (sent_fields laws d pt a s.kem) b ≡ (ok tt, b2)
      → b2.ck_r ≡ some s.ck
      → b2.initialized ≡ true
      → b2.session_id ≡ a.session_id
      → b2.dh_r ≡ some a.dh_s.0
      → b2.n_r ≡ a.n_s
      → KemReady laws a.kem_peer b2.kem_advertised
      → ((n : ℕ) → a.n_s ≤ n → get store_order b2.skipped (a.dh_s.0, n) ≡ none)
      → (b' : Session) × (decrypt c pkg b ≡ (ok pt, b'))
        × InStep a' b'
        × (b'.rk ≡ b2.rk)
        × (b'.skipped ≡ b2.skipped)
        × (b'.kem_advertised ≡ b2.kem_advertised)
  unfolding adopt_kem
  reached-InStep d pt a b b2 {a' = a'} s r room absent arrives chain i id key number ready fresh = (
    received (advertised c d pt a) a' b2,
    delivers laws d pt r s b b2 absent arrives id chain ready,
    record {
      sender = record {
        pn_fits = rw s.same_pn r.pn_fits;
        n_fits = rw s.next_number (omega arith);
        key_length = rw s.same_key r.key_length;
      };
      initialized = i;
      same_id = id ∙ sym s.same_id;
      ck = (chain_step c s.ck).1;
      sending = s.next_chain;
      receiving = s.next_chain;
      same_key = rw s.same_key key;
      same_number = rw (s.next_number, number);
      kem_ready = rw s.same_peer ready;
      not_stored = λ n h. rw s.same_key (fresh n (omega arith));
    },
    refl,
    refl,
    refl,
  )

  -- Of two sessions in step, whose sender has room for another message number, a message that was
  -- encrypted decrypts to its plaintext, and the sessions are in step again.
  pub decrypt-encrypt :
      (d : Draws) (pt : Bytes) (a b : Session) {pkg : Bytes} {a' : Session}
      → InStep a b
      → a.n_s + 1 < u32_mod
      → encrypt c d pt a ≡ (ok pkg, a')
      → (b' : Session) × (decrypt c pkg b ≡ (ok pt, b')) × InStep a' b'
  unfolding encrypt
  decrypt-encrypt d pt a b step room sent =
      let s =
        encrypt_open-IsSent c d pt a
          (rw (open_send_chain_open d.dh_secret a step.sending) at sent) in
      let (b', done, after, _, _, _) =
        reached-InStep d pt a b b s step.sender room (step.not_stored a.n_s (omega arith))
          (arrive-InStep b (sent_fields laws d pt a s.kem) step.initialized step.same_key
            step.same_number)
          (step.receiving ∙ sym step.sending ∙ s.chain) step.initialized step.same_id step.same_key
          step.same_number step.kem_ready step.not_stored in
      (b', done, after)

  -- `a` is to open a sending chain, and `b` has had all of the last one.
  pub record InTurn (secret : Bytes) (a b : Session) : Type 0 where
    pub pn_fits : a.pn < u32_mod
    pub closed : a.ck_s ≡ none
    pub keypair : b.dh_s.0 ≡ c.x25519_public b.dh_s.1
    pub same_peer : a.dh_r ≡ some b.dh_s.0
    pub same_root : b.rk ≡ a.rk
    pub same_id : b.session_id ≡ a.session_id
    pub initialized : b.initialized ≡ true
    pub all_received : b.n_r ≡ a.pn
    pub kem_ready : KemReady laws a.kem_peer b.kem_advertised
    pub new_key : is_new_chain b.dh_r (c.x25519_public secret) ≡ true
    pub not_stored : (n : ℕ) → get store_order b.skipped (c.x25519_public secret, n) ≡ none

  -- The sender's session with its new chain, and the receiver's behind the ratchet step.
  abbrev opened : Bytes → Session → Bytes → Session
  opened secret a peer =
      let (rk, ck) = root_step c a.rk (c.x25519 secret peer) in
      record a {
        rk = rk;
        dh_s = (c.x25519_public secret, secret);
        ck_s = some ck;
        n_s = 0;
        advertise_kem_next = true;
      }

  abbrev pub ratcheted : Session → Bytes → Session
  ratcheted b peer =
      let (rk, ck) = root_step c b.rk (c.x25519 b.dh_s.1 peer) in
      record b { rk = rk; ck_r = some ck; n_r = 0; dh_r = some peer; pn = b.n_s; ck_s = none }

  open_send_chain_closed :
      (secret : Bytes) (a : Session) (peer : Bytes)
      → a.ck_s ≡ none
      → a.dh_r ≡ some peer
      → open_send_chain c secret a ≡ opened secret a peer
  unfolding open_send_chain
  open_send_chain_closed secret a peer h k = ground arith

  pub arrive_turn :
      (b : Session) (h : Header)
      → b.initialized ≡ true
      → is_new_chain b.dh_r h.dh_pub ≡ true
      → b.n_r ≡ h.pn
      → arrive c h b ≡ (ok tt, ratcheted b h.dh_pub)
  unfolding arrive initialize align skip_to ratchet
  arrive_turn b h i k n = ground arith

  -- When the turn passes to a session whose sending chain is closed and whose peer has had all of
  -- its last chain, the first message of the new chain decrypts, both sides derive the same root
  -- key, and the sessions are in step.
  pub decrypt-encrypt_turn :
      (d : Draws) (pt : Bytes) (a b : Session) {pkg : Bytes} {a' : Session}
      → InTurn d.dh_secret a b
      → encrypt c d pt a ≡ (ok pkg, a')
      → (b' : Session) × (decrypt c pkg b ≡ (ok pt, b')) × InStep a' b' × (b'.rk ≡ a'.rk)
  unfolding encrypt
  decrypt-encrypt_turn d pt a b {a' = a'} t sent =
      let a1 = opened d.dh_secret a b.dh_s.0 in
      let s =
        encrypt_open-IsSent c d pt a1
          (rw (open_send_chain_closed d.dh_secret a b.dh_s.0 t.closed t.same_peer) at sent) in
      let agreed : c.x25519 b.dh_s.1 (c.x25519_public d.dh_secret) ≡ c.x25519 d.dh_secret b.dh_s.0 =
        rw t.keypair (laws.x25519_comm b.dh_s.1 d.dh_secret) in
      let r : IsSender a1 = record {
        pn_fits = t.pn_fits;
        n_fits = omega arith;
        key_length = laws.public_length d.dh_secret;
      } in
      let (b', done, step, root, _, _) =
        reached-InStep d pt a1 b (ratcheted b (c.x25519_public d.dh_secret)) s r (omega arith)
          (t.not_stored 0)
          (arrive_turn b (sent_fields laws d pt a1 s.kem) t.initialized t.new_key t.all_received)
          (rw (t.same_root, agreed) s.chain) t.initialized t.same_id refl refl t.kem_ready
          (λ n _. t.not_stored n) in
      (b', done, step, root ∙ rw (t.same_root, agreed) (sym s.same_root))
