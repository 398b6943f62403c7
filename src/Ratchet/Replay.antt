-- ===== src/Ratchet/Replay.antt =====
-- Packages of core/src/ratchet.rs that are not the next of their chain: replays, forgeries, and
-- the later messages of a new chain.
use vurn_server.Prelude.{
  ◌+◌, ◌<◌, ◌≡◌, ◌≢◌, refl, sym, ap, ◌∙◌, true, Option, none, some, arith, Result, ok, err, inl,
  inr, Result-cases, Bool-cases,
}
use vurn_server.Prelude.Bytes.{Bytes, bytes_eq, bytes_eq_iff, bytes_eq_refl}
use vurn_server.Prelude.SortedMap.{get}
use vurn_server.Crypto.{Crypto, CryptoLaws}
use vurn_server.Ratchet.{Session, DecryptError, out_of_order, store_order, u32_mod}
use vurn_server.Ratchet.Kdf.{root_step, chain_step}
use vurn_server.Ratchet.Chains.{skip_to, ratchet}
use vurn_server.Ratchet.Step.{◌>>=◌}
use vurn_server.Ratchet.Header.{Header, parse_header}
use vurn_server.Ratchet.Encrypt.{Draws, encrypt}
use vurn_server.Ratchet.Decrypt.{
  initialize, is_new_chain, align, arrive, next_receive_key, adopt_kem, receive, header_bytes,
  decrypt_parsed, decrypt, open_aead,
}
use vurn_server.Ratchet.InOrder.{sent_fields, parse_header-IsSent}
use vurn_server.Ratchet.Conversation.{InStep, arrive-InStep, reached-InStep}
use vurn_server.Ratchet.OutOfOrder.{IsSent-on}

is_new_chain_other : (cur dh_pub : Bytes) → cur ≢ dh_pub → is_new_chain (some cur) dh_pub ≡ true
unfolding is_new_chain
is_new_chain_other cur dh_pub h = elim (Bool-cases (bytes_eq cur dh_pub)) [
  | inl e ↦ absurd (h ((bytes_eq_iff cur dh_pub).0 e))
  | inr e ↦ rw (e, bytes_eq) refl
]

module _ (c : Crypto) where
  -- A package whose header the chain refuses.
  refused :
      (pkg : Bytes) (h : Header) (ct : Bytes) (s : Session)
      → parse_header pkg ≡ ok (h, ct)
      → get store_order s.skipped (h.dh_pub, h.n) ≡ none
      → arrive c h s ≡ (err out_of_order, s)
      → decrypt c pkg s ≡ (err out_of_order, s)
  unfolding decrypt decrypt_parsed receive
  refused pkg h ct s p g a = rw (p, decrypt) (rw (g, decrypt_parsed) (rw a refl))

  -- A package of the current chain that was passed, and whose key is not in the store, is refused
  -- and changes nothing.
  pub decrypt_passed :
      (pkg : Bytes) (h : Header) (ct : Bytes) (s : Session)
      → parse_header pkg ≡ ok (h, ct)
      → s.initialized ≡ true
      → s.dh_r ≡ some h.dh_pub
      → h.n < s.n_r
      → get store_order s.skipped (h.dh_pub, h.n) ≡ none
      → decrypt c pkg s ≡ (err out_of_order, s)
  decrypt_passed pkg h ct s p i k n g =
      refused pkg h ct s p g
        (unfold arrive initialize align is_new_chain in ground (arith, bytes_eq_refl h.dh_pub))

  -- What every package with a new ratchet key does to a session, opened or not.
  pub record Turned (h : Header) (s t : Session) : Type 0 where
    pub peer : t.dh_r ≡ some h.dh_pub
    pub closed : t.ck_s ≡ none
    pub number : t.n_r ≡ 1
    pub same_store : t.skipped ≡ s.skipped
    pub same_init : t.initialized ≡ true

  -- A package of another chain that says there were fewer messages than were received.
  behind :
      (h : Header) (s : Session)
      → s.initialized ≡ true
      → is_new_chain s.dh_r h.dh_pub ≡ true
      → h.pn < s.n_r
      → arrive c h s ≡ (err out_of_order, s)
  unfolding arrive initialize align
  behind h s i k n = ground arith

  -- The session behind a package's ratchet step.
  turned : Session → Bytes → Session
  turned s peer =
      let (rk, ck) = root_step c s.rk (c.x25519 s.dh_s.1 peer) in
      record s { rk = rk; ck_r = some ck; n_r = 0; dh_r = some peer; pn = s.n_s; ck_s = none }

  arrive-turned :
      (s : Session) (h : Header)
      → s.initialized ≡ true
      → is_new_chain s.dh_r h.dh_pub ≡ true
      → s.n_r ≡ h.pn
      → arrive c h s ≡ (ok tt, turned s h.dh_pub)
  unfolding arrive initialize align skip_to ratchet turned
  arrive-turned s h i k n = ground arith

  opened-Turned :
      (h : Header) (kem : Option Bytes) (s t : Session)
      (opens : Session → Result DecryptError Bytes)
      → Turned h s t
      → Turned h s ((do pt ← λ t. (opens t, t); λ t. (ok pt, adopt_kem kem t)) t).1
  unfolding adopt_kem
  opened-Turned h kem s t opens v = elim (Result-cases (opens t)) [
    | inl (pt, e) ↦ rw (e) record {
      peer = v.peer;
      closed = v.closed;
      number = v.number;
      same_store = v.same_store;
      same_init = v.same_init;
    }
    | inr (x, e) ↦ rw (e) v
  ]

  receive-Turned :
      (h : Header) (header ct : Bytes) (s : Session)
      → s.initialized ≡ true
      → is_new_chain s.dh_r h.dh_pub ≡ true
      → s.n_r ≡ h.pn
      → Turned h s (receive c h header ct s).1
  unfolding receive next_receive_key adopt_kem turned
  receive-Turned h header ct s i k n = rw (arrive-turned s h i k n) (
      opened-Turned h h.kem_pk s
        (record (turned s h.dh_pub) {
          ck_r = some (chain_step c (root_step c s.rk (c.x25519 s.dh_s.1 h.dh_pub)).1).1;
          n_r = 1;
        })
        (λ t.
          open_aead c t header ct h.kem_ct
            (chain_step c (root_step c s.rk (c.x25519 s.dh_s.1 h.dh_pub)).1).0)
        (record { peer = refl; closed = refl; number = refl; same_store = refl; same_init = i }))

  -- A package with a new ratchet key and the right `pn` ratchets the session, whether or not its
  -- ciphertext is authentic.
  pub decrypt-Turned :
      (pkg : Bytes) (h : Header) (ct : Bytes) (s : Session)
      → parse_header pkg ≡ ok (h, ct)
      → s.initialized ≡ true
      → is_new_chain s.dh_r h.dh_pub ≡ true
      → s.n_r ≡ h.pn
      → get store_order s.skipped (h.dh_pub, h.n) ≡ none
      → Turned h s (decrypt c pkg s).1
  unfolding decrypt decrypt_parsed
  decrypt-Turned pkg h ct s p i k n g =
      rw (p, decrypt) (rw (g, decrypt_parsed) (receive-Turned h (header_bytes pkg ct) ct s i k n))

  -- Once a package with a new ratchet key and the right pn has come, whatever its number and its
  -- ciphertext, message 0 of that chain is refused as out of order, unless its key was stored.
  pub decrypt-chain_lost :
      (pkg first : Bytes) (h k : Header) (ct dt : Bytes) (s : Session)
      → parse_header pkg ≡ ok (h, ct)
      → s.initialized ≡ true
      → is_new_chain s.dh_r h.dh_pub ≡ true
      → s.n_r ≡ h.pn
      → get store_order s.skipped (h.dh_pub, h.n) ≡ none
      → parse_header first ≡ ok (k, dt)
      → k.dh_pub ≡ h.dh_pub
      → k.n ≡ 0
      → get store_order s.skipped (h.dh_pub, 0) ≡ none
      → decrypt c first (decrypt c pkg s).1 ≡ (err out_of_order, (decrypt c pkg s).1)
  decrypt-chain_lost pkg first h k ct dt s p i new n g q same zero_th absent =
      let v = decrypt-Turned pkg h ct s p i new n g in
      decrypt_passed first k dt (decrypt c pkg s).1 q v.same_init (rw same v.peer)
        (omega (arith, v.number)) (rw (v.same_store, same, zero_th) absent)

module _ {c : Crypto} (laws : CryptoLaws c) where
  -- A package that was decrypted in step is refused as out of order when it comes again, and the
  -- session is unchanged by it.
  pub decrypt_again :
      (d : Draws) (pt : Bytes) (a b : Session) {pkg : Bytes} {a' : Session}
      → InStep laws a b
      → a.n_s + 1 < u32_mod
      → encrypt c d pt a ≡ (ok pkg, a')
      → (b' : Session) × (decrypt c pkg b ≡ (ok pt, b'))
        × (decrypt c pkg b' ≡ (err out_of_order, b'))
  decrypt_again d pt a b {pkg = pkg} step room sent =
      let s = IsSent-on laws d pt a step.sending sent in
      let (b', done, after, _, store, _) =
        reached-InStep laws d pt a b b s step.sender room (step.not_stored a.n_s (omega arith))
          (arrive-InStep laws b (sent_fields laws d pt a s.kem) step.initialized step.same_key
            step.same_number)
          (step.receiving ∙ sym step.sending ∙ s.chain) step.initialized step.same_id step.same_key
          step.same_number step.kem_ready step.not_stored in
      (
        b',
        done,
        decrypt_passed c pkg (sent_fields laws d pt a s.kem) s.body b'
            (parse_header-IsSent laws d pt a step.sender s) after.initialized
            (after.same_key ∙ ap (λ k. some k.0) s.same_key)
            (omega (arith, after.same_number, s.next_number))
            (rw store (step.not_stored a.n_s (omega arith))),
      )

  -- To a receiver in step a forgery comes first: any package with a ratchet key of its own and,
  -- as pn, the number of messages received so far. Then the next package that the true sender
  -- encrypts is refused, where the sender's pn is 0 as it is on its first chain.
  pub decrypt_forged :
      (d : Draws) (pt : Bytes) (a b : Session) (forged : Bytes) (h : Header) (ct : Bytes)
      {pkg : Bytes} {a' : Session}
      → InStep laws a b
      → parse_header forged ≡ ok (h, ct)
      → h.dh_pub ≢ a.dh_s.0
      → h.pn ≡ b.n_r
      → get store_order b.skipped (h.dh_pub, h.n) ≡ none
      → encrypt c d pt a ≡ (ok pkg, a')
      → a.pn ≡ 0
      → decrypt c pkg (decrypt c forged b).1 ≡ (err out_of_order, (decrypt c forged b).1)
  decrypt_forged d pt a b forged h ct {pkg = pkg} step p new n g sent first =
      let s = IsSent-on laws d pt a step.sending sent in
      let t = (decrypt c forged b).1 in
      let v =
        decrypt-Turned c forged h ct b p step.initialized
          (rw step.same_key (is_new_chain_other a.dh_s.0 h.dh_pub λ e. new (sym e))) (sym n) g in
      refused c pkg (sent_fields laws d pt a s.kem) s.body t
        (parse_header-IsSent laws d pt a step.sender s)
        (rw v.same_store (step.not_stored a.n_s (omega arith)))
        (behind c (sent_fields laws d pt a s.kem) t v.same_init
          (rw v.peer (is_new_chain_other h.dh_pub a.dh_s.0 new)) (omega (arith, v.number)))
