-- ===== src/Ratchet/Skips.antt =====
-- The skipped-message-key store of core/src/ratchet.rs: what `skip_to` puts into it.
use Prim.Native.Nat.{Ordering}
use native.Mathlib.Nat.{add-zero}
use vurn_server.Prelude.{
  ℕ, zero, suc, ◌+◌, ◌-◌, ◌≤◌, ◌<◌, ◌≡◌, ◌≢◌, refl, ap, ◌∙◌, some, arith, length, ok, err, ◌⊎◌,
}
use vurn_server.Prelude.Bytes.{Bytes}
use vurn_server.Prelude.SortedMap.{get, insert, get-insert_self, get-insert_ne}
use vurn_server.Crypto.{Crypto}
use vurn_server.Ratchet.{
  Session, StoreKey, store_cmp-eq, store_order, max_skip, max_skipped_total, out_of_order,
}
use vurn_server.Ratchet.Kdf.{chain_step}
use vurn_server.Ratchet.Chains.{skip_loop, skip_to}

module _ (c : Crypto) where
  -- The chain key after `k` steps, and the message key of the message there.
  unfoldable pub chain_at : Bytes → ℕ → Bytes
  chain_at ck zero = ck
  chain_at ck (suc k) = chain_at (chain_step c ck).1 k

  abbrev pub message_key : Bytes → ℕ → Bytes
  message_key ck k = (chain_step c (chain_at ck k)).0

  pub chain_at-suc : (ck : Bytes) (k : ℕ) → chain_at ck (suc k) ≡ (chain_step c (chain_at ck k)).1
  unfolding chain_at
  chain_at-suc ck zero = refl
  chain_at-suc ck (suc k) = chain_at-suc (chain_step c ck).1 k

  pub chain_at-zero : (ck : Bytes) → chain_at ck 0 ≡ ck
  unfolding chain_at
  chain_at-zero ck = refl

  -- The state after one round of the loop.
  abbrev stored : Bytes → Bytes → Session → Session
  stored dh ck s = record s {
    skipped = insert store_order s.skipped (dh, s.n_r) (chain_step c ck).0;
    n_r = s.n_r + 1;
  }

  -- Where the loop leaves the chain, and what it leaves alone.
  pub record Skipped (k : ℕ) (ck : Bytes) (s t : Session) : Type 0 where
    pub number : t.n_r ≡ s.n_r + k
    pub chain : t.ck_r ≡ some (chain_at ck k)
    pub same_id : t.session_id ≡ s.session_id
    pub same_peer : t.dh_r ≡ s.dh_r
    pub same_kem : t.kem_advertised ≡ s.kem_advertised
    pub same_init : t.initialized ≡ s.initialized

  skip_loop-Skipped : (k : ℕ) (dh ck : Bytes) (s : Session) → Skipped k ck s (skip_loop c k dh ck s)
  unfolding skip_loop chain_at
  skip_loop-Skipped zero dh ck s = ground arith
  skip_loop-Skipped (suc k) dh ck s =
      let f = skip_loop-Skipped k dh (chain_step c ck).1 (stored dh ck s) in
      record {
        number = omega (arith, f.number);
        chain = f.chain;
        same_id = f.same_id;
        same_peer = f.same_peer;
        same_kem = f.same_kem;
        same_init = f.same_init;
      }

  -- Two keys of one chain are told apart by their numbers.
  key_ne : (dh : Bytes) (n m : ℕ) → n ≢ m → store_order.cmp (dh, n) (dh, m) ≡ Ordering.eq → ⊥
  key_ne dh n m h e = h (ap (λ (k : StoreKey). k.1) (store_cmp-eq (dh, n) (dh, m) e))

  -- A key of another chain, or of a message that is not passed, keeps its entry.
  skip_loop-before :
      (k : ℕ) (dh ck : Bytes) (s : Session) (n : ℕ)
      → n < s.n_r
      → get store_order (skip_loop c k dh ck s).skipped (dh, n) ≡ get store_order s.skipped (dh, n)
  unfolding skip_loop
  skip_loop-before zero dh ck s n h = refl
  skip_loop-before (suc k) dh ck s n h =
      skip_loop-before k dh (chain_step c ck).1 (stored dh ck s) n (omega arith)
      ∙ get-insert_ne store_order s.skipped (dh, s.n_r) (dh, n) (chain_step c ck).0
          (key_ne dh n s.n_r (omega arith))

  skip_loop-after :
      (k : ℕ) (dh ck : Bytes) (s : Session) (n : ℕ)
      → s.n_r + k ≤ n
      → get store_order (skip_loop c k dh ck s).skipped (dh, n) ≡ get store_order s.skipped (dh, n)
  unfolding skip_loop
  skip_loop-after zero dh ck s n h = refl
  skip_loop-after (suc k) dh ck s n h =
      skip_loop-after k dh (chain_step c ck).1 (stored dh ck s) n (omega arith)
      ∙ get-insert_ne store_order s.skipped (dh, s.n_r) (dh, n) (chain_step c ck).0
          (key_ne dh n s.n_r (omega arith))

  -- The loop stores the key of each message that it passes.
  get-skip_loop :
      (k : ℕ) (dh ck : Bytes) (s : Session) (i : ℕ)
      → i < k
      → get store_order (skip_loop c k dh ck s).skipped (dh, s.n_r + i) ≡ some (message_key ck i)
  unfolding skip_loop chain_at
  get-skip_loop zero dh ck s i h = absurd (omega arith)
  get-skip_loop (suc k) dh ck s zero h = rw add-zero (
      skip_loop-before k dh (chain_step c ck).1 (stored dh ck s) s.n_r (omega arith)
      ∙ get-insert_self store_order s.skipped (dh, s.n_r) (chain_step c ck).0)
  get-skip_loop (suc k) dh ck s (suc i) h =
      let e : s.n_r + suc i ≡ s.n_r + 1 + i = omega arith in
      rw e (get-skip_loop k dh (chain_step c ck).1 (stored dh ck s) i (omega arith))

  -- A gap of `k` within the limits: `skip_to` moves the chain behind it, keeps the key of every
  -- message in it under its number, and leaves the entries of later messages as they were.
  pub skip_to-Skipped :
      (k : ℕ) (dh ck : Bytes) (s : Session)
      → s.dh_r ≡ some dh
      → s.ck_r ≡ some ck
      → 0 < k
      → k ≤ max_skip
      → length s.skipped + k ≤ max_skipped_total
      → (t : Session) × (skip_to c (s.n_r + k) s ≡ (ok tt, t))
        × Skipped k ck s t
        × ((i : ℕ) → i < k → get store_order t.skipped (dh, s.n_r + i) ≡ some (message_key ck i))
        × ((n : ℕ)
            → s.n_r + k ≤ n
            → get store_order t.skipped (dh, n) ≡ get store_order s.skipped (dh, n))
  unfolding skip_to
  skip_to-Skipped k dh ck s p r ahead near room =
      let gap : s.n_r + k - s.n_r ≡ k = omega arith in
      (
        skip_loop c k dh ck s,
        ground (arith, gap),
        skip_loop-Skipped k dh ck s,
        get-skip_loop k dh ck s,
        skip_loop-after k dh ck s,
      )

  -- A gap beyond the limit of one skip or of the store is refused as out of order, and the
  -- session is as it was.
  pub skip_to_refused :
      (until : ℕ) (s : Session)
      → s.n_r < until
      → (max_skip < until - s.n_r) ⊎ (max_skipped_total < length s.skipped + (until - s.n_r))
      → skip_to c until s ≡ (err out_of_order, s)
  unfolding skip_to
  skip_to_refused until s ahead far = ground arith

  -- For a gap within the limits, skip_to moves the chain behind the gap and keeps the key of each
  -- message of the gap under its number.
  pub skip_to-keeps :
      (k i : ℕ) (dh ck : Bytes) (s : Session)
      → s.dh_r ≡ some dh
      → s.ck_r ≡ some ck
      → i < k
      → k ≤ max_skip
      → length s.skipped + k ≤ max_skipped_total
      → (t : Session) × (skip_to c (s.n_r + k) s ≡ (ok tt, t))
        × Skipped k ck s t
        × (get store_order t.skipped (dh, s.n_r + i) ≡ some (message_key ck i))
  skip_to-keeps k i dh ck s h g l near room =
      let (t, done, after, keys, _) = skip_to-Skipped k dh ck s h g (omega arith) near room in
      (t, done, after, keys i l)
