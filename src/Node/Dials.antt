-- ===== src/Node/Dials.antt =====
-- server/src/p2p/node.rs: which peers a tick dials.
use mathlib.Core.List.{Memᴰ}
use mathlib.Core.List.Memᴰ.{
  head, tail, append_left, append_right, append_cases, cases_cons, not-nil,
}
use vurn_server.Prelude.{
  ℕ, ◌≡◌, ◌↔◌, refl, sym, ap, true, false, List, [], ◌∷◌, Bool-cases, inl, inr,
}
use vurn_server.Prelude.Bytes.{Bytes}
use vurn_server.Prelude.SortedMap.{insert, get-insert_cases}
use vurn_server.Mailbox.{bytes_order}
use vurn_server.Node.Redial.{
  Attempts, Peers, is_connected, attempts_of, is_due, redial_peer, collect_redials, reconnect_tick,
}

module _ (now : ℕ) (connected : List Bytes) where
  -- A connected peer's entry says nothing of one that is not.
  attempts-connected :
      (known : List (Bytes × Attempts)) (p peer : Bytes)
      → is_connected connected p ≡ true
      → is_connected connected peer ≡ false
      → attempts_of now (insert bytes_order known p (0, now)) peer ≡ attempts_of now known peer
  unfolding attempts_of
  attempts-connected known p peer c n = elim (get-insert_cases bytes_order known p peer (0, now)) [
    | inl (same, _) ↦ absurd cc
    | inr e ↦ rw (e, attempts_of) refl
  ]

  redial_peer_sound :
      (a : Attempts) (p peer addr : Bytes) (addrs : List Bytes)
      → Memᴰ (peer, addr) (redial_peer now a p addrs)
      → (more : List Bytes) × (p ≡ peer) × (addrs ≡ addr ∷ more) × (is_due now a ≡ true)
  unfolding redial_peer
  redial_peer_sound a p peer addr [] m = elim m [ ]
  redial_peer_sound a p peer addr (first ∷ more) m = elim (Bool-cases (is_due now a)) [
    | inr n ↦ absurd (not-nil (rw n at m))
    | inl d ↦ elim (cases_cons (rw d at m)) [
      | inr others ↦ absurd (not-nil others)
      | inl same ↦ (
        more,
        ap (λ (x : Bytes × Bytes). x.0) (sym same),
        ap (λ (x : Bytes × Bytes). x.1 ∷ more) (sym same),
        d,
      )
    ]
  ]

  redial_peer_due :
      (a : Attempts) (peer addr : Bytes) (more : List Bytes)
      → is_due now a ≡ true
      → Memᴰ (peer, addr) (redial_peer now a peer (addr ∷ more))
  unfolding redial_peer
  redial_peer_due a peer addr more d = rw d (head refl)

  -- What a dial of a tick stands on.
  abbrev pub IsRedialled :
      List (Bytes × List Bytes) → List (Bytes × Attempts) → Bytes → Bytes → Type 0
  IsRedialled entries known peer addr =
      (is_connected connected peer ≡ false)
      × (is_due now (attempts_of now known peer) ≡ true)
      × (more : List Bytes) × Memᴰ (peer, addr ∷ more) entries

  collect_sound :
      (entries : List (Bytes × List Bytes)) (known : List (Bytes × Attempts)) (peer addr : Bytes)
      → Memᴰ (peer, addr) (collect_redials now connected entries known).0
      → IsRedialled entries known peer addr
  unfolding collect_redials
  collect_sound [] known peer addr m = elim m [ ]
  collect_sound ((p, addrs) ∷ rest) known peer addr m =
      elim (Bool-cases (is_connected connected p)) [
        | inl c ↦
            let (n, d, more, found) =
              collect_sound rest (insert bytes_order known p (0, now)) peer addr (rw c at m) in
            (n, rw (attempts-connected known p peer c n) at d, more, tail found)
        | inr n ↦
            elim (append_cases (redial_peer now (attempts_of now known p) p addrs) (rw n at m)) [
              | inl here ↦
                  let (more, same, is, d) =
                    redial_peer_sound (attempts_of now known p) p peer addr addrs here in
                  (rw same at n, rw same at d, more, head (λ i. (sym same i, sym is i)))
              | inr others ↦
                  let (away, d, more, found) = collect_sound rest known peer addr others in
                  (away, d, more, tail found)
            ]
      ]

  collect_complete :
      (entries : List (Bytes × List Bytes)) (known : List (Bytes × Attempts)) (peer addr : Bytes)
      → IsRedialled entries known peer addr
      → Memᴰ (peer, addr) (collect_redials now connected entries known).0
  unfolding collect_redials
  collect_complete [] known peer addr (n, d, more, m) = elim m [ ]
  collect_complete ((p, addrs) ∷ rest) known peer addr (n, d, more, head same) =
      let p_is : peer ≡ p = ap (λ (x : Bytes × List Bytes). x.0) same in
      let addrs_are : addr ∷ more ≡ addrs = ap (λ (x : Bytes × List Bytes). x.1) same in
      rw (← p_is, n, ← addrs_are)
        (append_left _ (redial_peer_due (attempts_of now known peer) peer addr more d))
  collect_complete ((p, addrs) ∷ rest) known peer addr (n, d, more, tail m) =
      elim (Bool-cases (is_connected connected p)) [
        | inl c ↦ rw c (
            collect_complete rest (insert bytes_order known p (0, now)) peer addr
              (n, rw (attempts-connected known p peer c n) d, more, m))
        | inr c ↦ rw c (append_right _ (collect_complete rest known peer addr (n, d, more, m)))
      ]

  -- A tick dials an address of a peer exactly if the node is not connected to the peer, the
  -- address is the first of those that it has for the peer, and the peer is due by the attempts
  -- that were counted before the tick: there was none, or the last one is as long ago as the
  -- delay for their number.
  pub reconnect_tick_iff :
      (p : Peers) (peer addr : Bytes)
      → Memᴰ (peer, addr) (reconnect_tick now connected p).0
        ↔ IsRedialled p.peer_addrs p.known_peers peer addr
  unfolding reconnect_tick
  reconnect_tick_iff p peer addr = (
    collect_sound p.peer_addrs p.known_peers peer addr,
    collect_complete p.peer_addrs p.known_peers peer addr,
  )
