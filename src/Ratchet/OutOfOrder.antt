-- ===== src/Ratchet/OutOfOrder.antt =====
-- Messages of core/src/ratchet.rs that arrive in another order than they were sent.
use vurn_server.Prelude.{
  ℕ, zero, suc, ◌+◌, ◌≤◌, ◌<◌, ◌≡◌, refl, sym, ◌∙◌, true, none, some, arith, length, ok,
}
use vurn_server.Prelude.Bytes.{Bytes, bytes_eq_refl}
use vurn_server.Prelude.SortedMap.{get, remove}
use vurn_server.Crypto.{Crypto, CryptoLaws}
use vurn_server.Ratchet.{Session, store_order, u32_mod, max_skip, max_skipped_total}
use vurn_server.Ratchet.Kdf.{chain_step}
use vurn_server.Ratchet.Header.{Header}
use vurn_server.Ratchet.Chains.{skip_to}
use vurn_server.Ratchet.Encrypt.{Draws, encrypt}
use vurn_server.Ratchet.Decrypt.{
  initialize, is_new_chain, align, arrive, open_stored, decrypt_parsed, decrypt,
}
use vurn_server.Ratchet.Delivery.{KemReady, open_aead-seal}
use vurn_server.Ratchet.Sent.{IsSent, sent_header, encrypt_open-IsSent}
use vurn_server.Ratchet.InOrder.{IsSender, sent_fields, parse_header-IsSent, header_bytes-append}
use vurn_server.Ratchet.Conversation.{InStep, reached-InStep, open_send_chain_open}
use vurn_server.Ratchet.Skips.{chain_at, message_key, skip_to-Skipped}

module _ {c : Crypto} (laws : CryptoLaws c) where
  pub IsSent-on :
      (d : Draws) (pt : Bytes) (a : Session) {ck pkg : Bytes} {a' : Session}
      → a.ck_s ≡ some ck
      → encrypt c d pt a ≡ (ok pkg, a')
      → IsSent c d pt a pkg a'
  unfolding encrypt
  IsSent-on d pt a h sent =
      encrypt_open-IsSent c d pt a (rw (open_send_chain_open laws d.dh_secret a h) at sent)

  -- `k` messages were encrypted, which took the session from the first to the second.
  pub data Sends : ℕ → Session → Session → Type 0 where
    done : {a : Session} → Sends zero a a
    next :
        {k : ℕ} {a b e : Session} (d : Draws) (pt pkg : Bytes)
        → encrypt c d pt a ≡ (ok pkg, b)
        → Sends k b e
        → Sends (suc k) a e

  -- The sender's session, `k` messages on.
  record Advanced (k : ℕ) (ck : Bytes) (a e : Session) : Type 0 where
    chain : e.ck_s ≡ some (chain_at c ck k)
    number : e.n_s ≡ a.n_s + k
    same_key : e.dh_s ≡ a.dh_s
    same_id : e.session_id ≡ a.session_id
    same_pn : e.pn ≡ a.pn
    same_peer : e.kem_peer ≡ a.kem_peer

  Sends-Advanced :
      {k : ℕ} {a e : Session} {ck : Bytes}
      → Sends k a e
      → a.ck_s ≡ some ck
      → a.n_s + k < u32_mod
      → Advanced k ck a e
  unfolding chain_at
  Sends-Advanced done h room = record {
    chain = h;
    number = omega arith;
    same_key = refl;
    same_id = refl;
    same_pn = refl;
    same_peer = refl;
  }
  Sends-Advanced {k = suc k} {a = a} {ck = ck} (next {b = b} d pt pkg sent rest) h room =
      let s = IsSent-on d pt a h sent in
      let same : s.ck ≡ ck = cc (s.chain, h) in
      let step : b.n_s ≡ a.n_s + 1 = omega (arith, s.next_number) in
      let later = Sends-Advanced rest (rw same at s.next_chain) (omega (arith, step)) in
      record {
        chain = later.chain;
        number = omega (arith, later.number, step);
        same_key = later.same_key ∙ s.same_key;
        same_id = later.same_id ∙ s.same_id;
        same_pn = later.same_pn ∙ s.same_pn;
        same_peer = later.same_peer ∙ s.same_peer;
      }

  arrive_ahead :
      (b t : Session) (h : Header)
      → b.initialized ≡ true
      → b.dh_r ≡ some h.dh_pub
      → b.n_r < h.n
      → skip_to c h.n b ≡ (ok tt, t)
      → arrive c h b ≡ (ok tt, t)
  unfolding arrive initialize align is_new_chain
  arrive_ahead b t h i k n e = ground (arith, bytes_eq_refl h.dh_pub)

  -- A package whose message key is in the store.
  delivers_late :
      (d : Draws) (pt : Bytes) (a b : Session) {pkg : Bytes} {a' : Session}
      → IsSender a
      → (s : IsSent c d pt a pkg a')
      → get store_order b.skipped (a.dh_s.0, a.n_s) ≡ some (chain_step c s.ck).0
      → b.session_id ≡ a.session_id
      → KemReady laws a.kem_peer b.kem_advertised
      → decrypt c pkg b
        ≡ (ok pt, record b { skipped = remove store_order b.skipped (a.dh_s.0, a.n_s) })
  unfolding decrypt decrypt_parsed open_stored
  delivers_late d pt a b r s kept id ready =
      let opens =
        open_aead-seal laws d.coins a.kem_peer s.kem b (sent_header c d pt a s.kem) _ pt s.made
          ready (rw (← id) at s.sealed) in
      rw (parse_header-IsSent laws d pt a r s, decrypt)
        (rw (kept, decrypt_parsed)
          (rw (s.package_is, header_bytes-append (sent_header c d pt a s.kem) s.body)
            (rw (opens, open_stored))))

  Advanced-IsSender :
      {k : ℕ} {ck : Bytes} {a e : Session}
      → Advanced k ck a e
      → IsSender a
      → a.n_s + k < u32_mod
      → IsSender e
  Advanced-IsSender v r room = record {
    pn_fits = rw v.same_pn r.pn_fits;
    n_fits = omega (arith, v.number);
    key_length = rw v.same_key r.key_length;
  }

  -- The message that comes first, `j` places ahead of the one that is expected.
  jumps_ahead :
      (d : Draws) (pt : Bytes) (a b e : Session) (j : ℕ) {pkg : Bytes} {e' : Session}
      → (step : InStep laws a b) → Advanced j step.ck a e
      → (s : IsSent c d pt e pkg e') → 0 < j
      → j ≤ max_skip
      → length b.skipped + j ≤ max_skipped_total
      → a.n_s + j + 1 < u32_mod
      → (b1 : Session) × (decrypt c pkg b ≡ (ok pt, b1))
        × InStep laws e' b1
        × ((i : ℕ)
            → i < j
            → get store_order b1.skipped (a.dh_s.0, a.n_s + i) ≡ some (message_key c step.ck i))
        × (b1.session_id ≡ a.session_id)
        × (b1.kem_advertised ≡ b.kem_advertised)
  jumps_ahead d pt a b e j {e' = e'} step v s ahead near room fits =
      let peer : b.dh_r ≡ some e.dh_s.0 = rw v.same_key step.same_key in
      let number : e.n_s ≡ b.n_r + j = omega (arith, v.number, step.same_number) in
      let (t, skips, f, keys, others) =
        skip_to-Skipped c j e.dh_s.0 step.ck b peer step.receiving ahead near room in
      let unseen : (n : ℕ) → e.n_s ≤ n → get store_order b.skipped (e.dh_s.0, n) ≡ none =
        λ n h. rw v.same_key (step.not_stored n (omega (arith, v.number))) in
      let (b1, opened, after, _, store, kem) =
        reached-InStep laws d pt e b t s (Advanced-IsSender v step.sender (omega arith))
          (omega (arith, v.number)) (unseen e.n_s (omega arith))
          (arrive_ahead b t (sent_fields laws d pt e s.kem) step.initialized peer
            (omega (arith, number)) (rw number skips))
          (f.chain ∙ sym v.chain ∙ s.chain) (f.same_init ∙ step.initialized)
          (f.same_id ∙ step.same_id ∙ sym v.same_id) (f.same_peer ∙ peer)
          (omega (arith, f.number, number)) (rw (v.same_peer, f.same_kem) step.kem_ready)
          (λ n h. others n (omega (arith, number)) ∙ unseen n h) in
      (
        b1,
        opened,
        after,
        λ i h. rw (store, ← v.same_key, ← step.same_number) (keys i h),
        after.same_id ∙ s.same_id ∙ v.same_id,
        kem ∙ f.same_kem,
      )

  -- A message of which the receiver kept the key.
  late_delivery :
      (e : Draws) (qt : Bytes) (a b a_i b1 : Session) (i : ℕ) {pkg : Bytes} {a_i' : Session}
      → (step : InStep laws a b) → Advanced i step.ck a a_i
      → a.n_s + i < u32_mod
      → IsSent c e qt a_i pkg a_i'
      → get store_order b1.skipped (a.dh_s.0, a.n_s + i) ≡ some (message_key c step.ck i)
      → b1.session_id ≡ a.session_id
      → b1.kem_advertised ≡ b.kem_advertised
      → decrypt c pkg b1
        ≡ (ok qt, record b1 { skipped = remove store_order b1.skipped (a.dh_s.0, a.n_s + i) })
  late_delivery e qt a b a_i b1 i step w room t kept id kem =
      let same : t.ck ≡ chain_at c step.ck i = cc (t.chain, w.chain) in
      rw (← w.same_key, ← w.number)
        (delivers_late e qt a_i b1 (Advanced-IsSender w step.sender room) t
          (rw (w.same_key, w.number, same) kept) (id ∙ sym w.same_id)
          (rw (w.same_peer, kem) step.kem_ready))

  -- Of two messages of one chain the later one arrives first, ahead of the expected one within
  -- the limits of the store: it decrypts, the sessions are in step behind it, and the earlier one
  -- then decrypts with its stored key, which is removed and nothing else is changed.
  pub decrypt_out_of_order :
      (d e : Draws) (pt qt : Bytes) (a b a_i a_j : Session) (i j : ℕ) {pkg_i pkg_j : Bytes}
      {a_i' a_j' : Session}
      → InStep laws a b
      → Sends i a a_i
      → Sends j a a_j
      → i < j
      → j ≤ max_skip
      → length b.skipped + j ≤ max_skipped_total
      → a.n_s + j + 1 < u32_mod
      → encrypt c d pt a_j ≡ (ok pkg_j, a_j')
      → encrypt c e qt a_i ≡ (ok pkg_i, a_i')
      → (b1 : Session) × (decrypt c pkg_j b ≡ (ok pt, b1))
        × InStep laws a_j' b1
        × (decrypt c pkg_i b1
            ≡ (ok qt, record b1 { skipped = remove store_order b1.skipped (a.dh_s.0, a.n_s + i) }))
  decrypt_out_of_order d e pt qt a b a_i a_j i j step to_i to_j less near room fits sent_j sent_i =
      let v = Sends-Advanced to_j step.sending (omega arith) in
      let w = Sends-Advanced to_i step.sending (omega arith) in
      let s = IsSent-on d pt a_j v.chain sent_j in
      let t = IsSent-on e qt a_i w.chain sent_i in
      let (b1, first, after, keys, id, kem) =
        jumps_ahead d pt a b a_j j step v s (omega arith) near room fits in
      (
        b1,
        first,
        after,
        late_delivery e qt a b a_i b1 i step w (omega arith) t (keys i less) id kem,
      )
