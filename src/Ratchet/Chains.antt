-- ===== src/Ratchet/Chains.antt =====
-- core/src/ratchet.rs: starting a session, and the steps that move its chains.
use mathlib.Core.Option
use vurn_server.Prelude.{
  ℕ, zero, suc, ◌+◌, ◌-◌, Bool, true, false, Option, none, some, List, [], ◌∷◌, ltb, leb,
  if◌then◌else◌, length, Result, ok, err,
}
use vurn_server.Prelude.Bytes.{Bytes}
use vurn_server.Prelude.SortedMap.{insert}
use vurn_server.Crypto.{Crypto}
use vurn_server.Ratchet.{
  DecryptError, out_of_order, AdvertisedKem, Session, SessionStart, store_order, max_skip,
  max_skipped_total,
}
use vurn_server.Ratchet.Kdf.{chain_step, root_step, x25519_shared, x25519_keypair, kem_keypair}
use vurn_server.Ratchet.Step.{Step, lift, ◌>>=◌}

-- `vec![AdvertisedKem { pk, sk }]`, or nothing
abbrev pub advertised_of : Option (Bytes × Bytes) → List AdvertisedKem
advertised_of none = []
advertised_of (some (pk, sk)) = record { pk = pk; sk = sk } ∷ []

abbrev pub fresh : SessionStart → Option Bytes → List AdvertisedKem → Bool → Session
fresh start dh_r kem initialized = record {
  session_id = start.session_id;
  rk = start.root;
  dh_s = start.our_dh;
  dh_r = dh_r;
  ck_s = none;
  ck_r = none;
  n_s = 0;
  n_r = 0;
  pn = 0;
  kem_advertised = kem;
  kem_peer = none;
  advertise_kem_next = true;
  skipped = [];
  initialized = initialized;
}

module _ (c : Crypto) where
  -- The chain that a root key and a shared secret give: the new root key and the seed.
  abbrev seed_send : Session → Result DecryptError Bytes → Option Session
  seed_send s (ok dh) =
      let (rk, ck) = root_step c s.rk dh in some (record s { rk = rk; ck_s = some ck; n_s = 0 })
  seed_send s (err e) = none

  -- `None` where the source panics: `expect` on a missing peer key.
  unfoldable pub start_alice : SessionStart → Option Session
  unfolding x25519_shared root_step
  start_alice start =
      let sess = fresh start start.peer_dh (advertised_of start.our_kem) true in
      elim start.peer_dh [
        | none ↦ none
        | some peer ↦ seed_send sess (x25519_shared c sess.dh_s.1 peer)
      ]

  -- The first argument is the seed of the responder's first ML-KEM ratchet key.
  unfoldable pub start_bob : Bytes → SessionStart → Session
  unfolding kem_keypair
  start_bob kem_seed start = fresh start none (advertised_of (some (kem_keypair c kem_seed))) false

  unfoldable pub derive_initial_receive_chain : Bytes → Step (Unit {0})
  unfolding x25519_shared root_step
  derive_initial_receive_chain peer_dh s =
      (do
        dh ← lift (x25519_shared c s.dh_s.1 peer_dh)
        λ t.
            let (rk, ck_r) = root_step c t.rk dh in
            (
              ok tt,
              record t {
                rk = rk;
                ck_r = some ck_r;
                n_r = 0;
                dh_r = some peer_dh;
                initialized = true;
              },
            ))
        s

  -- The secret is the one that a fresh ratchet keypair is made of.
  unfoldable pub open_send_chain : Bytes → Session → Session
  unfolding x25519_keypair x25519_shared root_step
  open_send_chain secret s = elim s.ck_s [
    | some _ ↦ s
    | none ↦ elim s.dh_r [
      | none ↦ s
      | some peer_dh ↦
          let t = record s { dh_s = x25519_keypair c secret; advertise_kem_next = true } in
          Option.get_or (seed_send t (x25519_shared c t.dh_s.1 peer_dh)) t
    ]
  ]

  -- `while self.n_r < until`, with the rounds that are left.
  unfoldable pub skip_loop : ℕ → Bytes → Bytes → Session → Session
  unfolding chain_step
  skip_loop zero dh ck s = record s { ck_r = some ck }
  skip_loop (suc rounds) dh ck s =
      let (mk, next) = chain_step c ck in
      skip_loop rounds dh next
        (record s { skipped = insert store_order s.skipped (dh, s.n_r) mk; n_r = s.n_r + 1 })

  unfoldable pub skip_to : ℕ → Step (Unit {0})
  skip_to until s =
      if leb until s.n_r
      then (ok tt, s)
      else if ltb max_skip (until - s.n_r)
      then (err out_of_order, s)
      else if ltb max_skipped_total (length s.skipped + (until - s.n_r))
      then (err out_of_order, s)
      else elim s.dh_r [
        | none ↦ (ok tt, s)
        | some dh ↦ elim s.ck_r [
          | none ↦ (ok tt, s)
          | some ck ↦ (ok tt, skip_loop (until - s.n_r) dh ck s)
        ]
      ]

  unfoldable pub ratchet : Bytes → Step (Unit {0})
  unfolding x25519_shared root_step
  ratchet peer_dh s =
      (do
        dh1 ← lift (x25519_shared c s.dh_s.1 peer_dh)
        λ t.
            let (rk1, ck_r) = root_step c t.rk dh1 in
            (
              ok tt,
              record t {
                rk = rk1;
                ck_r = some ck_r;
                n_r = 0;
                dh_r = some peer_dh;
                pn = t.n_s;
                ck_s = none;
              },
            ))
        s
