-- ===== src/Gateway/Once.antt =====
-- server/src/ws.rs: what is marked as delivered is not sent again.
use vurn_server.Prelude.{
  ℕ, ◌≡◌, refl, ap, ◌∙◌, true, false, ◌||◌, ◌==◌, ==_iff, List, [], ◌∷◌, ◌++◌, arith, Bool-cases,
  inl, inr,
}
use vurn_server.Prelude.Bytes.{Bytes}
use vurn_server.Mailbox.{load_delivered_hashes, read_sled_backup}
use vurn_server.Gateway.{Host, Gateway}
use vurn_server.Gateway.Send.{contains}
use vurn_server.Gateway.Connection.{connect}
use vurn_server.Gateway.Channels.{copies}
use vurn_server.Gateway.Drain.{payloads_in, all_copies, fresh}
use vurn_server.Gateway.Reconnect.{channels, connect_delivers}

pub contains-append :
    (xs ys : List ℕ) (h : ℕ) → contains (xs ++ ys) h ≡ (contains xs h || contains ys h)
unfolding contains
contains-append [] ys h = refl
contains-append (y ∷ xs) ys h = ground (arith, contains-append xs ys h)

module _ (x : Host) where
  -- The hashes of the payloads that were sent.
  unfoldable pub sent_hashes : List (ℕ × Bytes) → List ℕ
  sent_hashes [] = []
  sent_hashes ((tx, payload) ∷ sent) = x.payload_hash payload ∷ sent_hashes sent

  sent_hashes-append :
      (s t : List (ℕ × Bytes)) → sent_hashes (s ++ t) ≡ sent_hashes s ++ sent_hashes t
  unfolding sent_hashes
  sent_hashes-append [] t = refl
  sent_hashes-append ((tx, payload) ∷ s) t =
      ap (◌∷◌ (x.payload_hash payload)) (sent_hashes-append s t)

  sent_hashes-copies :
      (closed senders : List ℕ) (payload : Bytes) (h : ℕ)
      → (x.payload_hash payload == h) ≡ false
      → contains (sent_hashes (copies closed senders payload)) h ≡ false
  unfolding sent_hashes copies contains
  sent_hashes-copies closed [] payload h n = refl
  sent_hashes-copies closed (s ∷ senders) payload h n = elim (Bool-cases (contains closed s)) [
    | inl e ↦ rw e (sent_hashes-copies closed senders payload h n)
    | inr e ↦ rw (e, n) (sent_hashes-copies closed senders payload h n)
  ]

  later_mark :
      (marked : List ℕ) (k h : ℕ) → contains marked h ≡ true → contains (k ∷ marked) h ≡ true
  unfolding contains
  later_mark marked k h m = ground arith

  distinct :
      (marked : List ℕ) (k h : ℕ)
      → contains marked h ≡ true
      → contains marked k ≡ false
      → (k == h) ≡ false
  distinct marked k h m n = elim (Bool-cases (k == h)) [
    | inr d ↦ d
    | inl e ↦ absurd (let same = (==_iff k h).0 e in cc)
  ]

  none_sent : (h : ℕ) → contains (sent_hashes []) h ≡ false
  unfolding sent_hashes contains
  none_sent h = refl

  -- No fresh payload has a hash that is marked.
  fresh-skips :
      (closed senders marked : List ℕ) (payloads : List Bytes) (h : ℕ)
      → contains marked h ≡ true
      → contains (sent_hashes (all_copies closed senders (fresh x marked payloads))) h ≡ false
  unfolding fresh all_copies
  fresh-skips closed senders marked [] h m = none_sent h
  fresh-skips closed senders marked (p ∷ payloads) h m =
      elim (Bool-cases (contains marked (x.payload_hash p))) [
        | inl e ↦ rw e (fresh-skips closed senders marked payloads h m)
        | inr e ↦ rw e (
            ap (λ s. contains s h) (sent_hashes-append (copies closed senders p) _)
            ∙ contains-append (sent_hashes (copies closed senders p)) _ h
            ∙ rw (sent_hashes-copies closed senders p h (distinct marked (x.payload_hash p) h m e))
                (fresh-skips closed senders (x.payload_hash p ∷ marked) payloads h
                  (later_mark marked (x.payload_hash p) h m)))
      ]

  -- A client that connects to a gateway with a mailbox, over a next channel that is not closed,
  -- makes the gateway send no payload whose hash is in the marks saved for it.
  pub connect_skips_marked :
      (now : ℕ) (session : Bytes) (g : Gateway) (h : ℕ)
      → g.mailbox ≡ true
      → contains g.closed g.next_channel ≡ false
      → contains (load_delivered_hashes x.net session g.manager) h ≡ true
      → (rest : List (ℕ × Bytes)) × ((connect x now session g).sent ≡ g.sent ++ rest)
        × (contains (sent_hashes rest) h ≡ false)
  connect_skips_marked now session g h on new m = (
    _,
    (connect_delivers x now session g on new).0,
    fresh-skips g.closed (channels x now session g) (load_delivered_hashes x.net session g.manager)
        (payloads_in (read_sled_backup x.net session g.manager).0) h m,
  )
