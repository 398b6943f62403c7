-- ===== src/Gateway/Stale.antt =====
-- server/src/ws.rs and server/src/main.rs: a client that has disconnected keeps its sender, and a
-- message of the gossip network that comes then is marked although nobody got it.
use vurn_server.Prelude.{
  ℕ, ◌≡◌, ◌≢◌, refl, ap, ◌∙◌, true, false, ◌==◌, some, none, List, [], ◌∷◌, ◌++◌, arith, length,
  if_true,
}
use vurn_server.Prelude.Bytes.{Bytes}
use vurn_server.Prelude.SortedMap.{get, insert, remove, get-insert_self, get-remove_self}
use vurn_server.Mailbox.{Manager, bytes_order, load_delivered_hashes, save_delivered_hashes}
use vurn_server.Mailbox.Hashes.{load_delivered_hashes-save_delivered_hashes, trim_hashes_short}
use vurn_server.Node.{message_received}
use vurn_server.Gateway.{Host, HostLaws, Gateway}
use vurn_server.Gateway.Send.{
  contains, insert_hash, evict, check_and_mark_delivered, persist_delivered_set, send_all, send,
}
use vurn_server.Gateway.Connection.{
  retain_open, clean_senders, drop_receiver, clean_up, disconnect, connect,
}
use vurn_server.Gateway.Events.{
  mark_and_send, handle_gossip, handle_message_received, handle_p2p_event,
}
use vurn_server.Gateway.Outcomes.{persist_delivered_set_lem}
use vurn_server.Gateway.Once.{sent_hashes, connect_skips_marked}

module _ (x : Host) (session : Bytes) (tx : ℕ) where
  -- What the clean-up of a user's last connection leaves.
  record IsLeft (k g : Gateway) : Type 0 where
    sender : get bytes_order k.clients session ≡ some (tx ∷ [])
    closed : k.closed ≡ tx ∷ g.closed
    sent : k.sent ≡ g.sent
    next : k.next_channel ≡ g.next_channel
    mailbox : k.mailbox ≡ g.mailbox
    unmarked : get bytes_order k.delivered_hashes session ≡ none

  clean_senders_open :
      (g : Gateway)
      → get bytes_order g.clients session ≡ some (tx ∷ [])
      → contains g.closed tx ≡ false
      → clean_senders session g
        ≡ record g { clients = insert bytes_order g.clients session (tx ∷ []) }
  unfolding clean_senders retain_open
  clean_senders_open g e o = rw (e, clean_senders) (rw o refl)

  disconnect-IsLeft :
      (g : Gateway)
      → get bytes_order g.clients session ≡ some (tx ∷ [])
      → contains g.closed tx ≡ false
      → IsLeft (disconnect x session tx g) g
  unfolding disconnect clean_up drop_receiver
  disconnect-IsLeft g e o =
      let (m, saved) = persist_delivered_set_lem x session g in
      let cleared : Gateway = record g {
        manager = m;
        rate_limiters = remove bytes_order g.rate_limiters session;
        delivered_hashes = remove bytes_order g.delivered_hashes session;
      } in
      let is : disconnect x session tx g ≡ record cleared {
        clients = insert bytes_order g.clients session (tx ∷ []);
        closed = tx ∷ g.closed;
      } =
        ap
          (λ s. drop_receiver tx (
            clean_senders session (record s {
              rate_limiters = remove bytes_order s.rate_limiters session;
              delivered_hashes = remove bytes_order s.delivered_hashes session;
            })))
          saved
        ∙ ap (drop_receiver tx) (clean_senders_open cleared e o) in
      record {
        sender =
            ap (λ (k : Gateway). get bytes_order k.clients session) is
            ∙ get-insert_self bytes_order g.clients session (tx ∷ []);
        closed = ap (λ (k : Gateway). k.closed) is;
        sent = ap (λ (k : Gateway). k.sent) is;
        next = ap (λ (k : Gateway). k.next_channel) is;
        mailbox = ap (λ (k : Gateway). k.mailbox) is;
        unmarked =
            ap (λ (k : Gateway). get bytes_order k.delivered_hashes session) is
            ∙ get-remove_self bytes_order g.delivered_hashes session;
      }

  module _ (k : Gateway) (payload : Bytes) where
    abbrev marked : Gateway
    marked = record k {
      delivered_hashes =
          insert bytes_order k.delivered_hashes session (x.payload_hash payload ∷ []);
    }

    check_new :
        get bytes_order k.delivered_hashes session ≡ none
        → check_and_mark_delivered x k.delivered_hashes session payload
          ≡ (true, insert bytes_order k.delivered_hashes session (x.payload_hash payload ∷ []))
    unfolding check_and_mark_delivered evict insert_hash contains
    check_new u = rw (u, check_and_mark_delivered) refl

    mark_new :
        contains k.closed tx ≡ true
        → get bytes_order k.delivered_hashes session ≡ none
        → mark_and_send x session (tx ∷ []) payload k ≡ ((true, false), marked)
    unfolding mark_and_send send_all send
    mark_new c u = rw (check_new u, mark_and_send) (rw (c, send_all, send) refl)

    persist_new :
        k.mailbox ≡ true
        → persist_delivered_set x session marked ≡ record marked {
          manager = save_delivered_hashes x.net session (x.payload_hash payload ∷ []) k.manager;
        }
    unfolding persist_delivered_set
    persist_new on =
        if_true _ marked on
        ∙ rw (get-insert_self bytes_order k.delivered_hashes session (x.payload_hash payload ∷ []))
            refl

    -- The message is marked and the mark is saved, and nothing is sent.
    gossip_marks :
        get bytes_order k.clients session ≡ some (tx ∷ [])
        → contains k.closed tx ≡ true
        → get bytes_order k.delivered_hashes session ≡ none
        → k.mailbox ≡ true
        → handle_gossip x session payload k ≡ record marked {
          manager = save_delivered_hashes x.net session (x.payload_hash payload ∷ []) k.manager;
        }
    unfolding handle_gossip
    gossip_marks e c u on =
        rw (e, handle_gossip) (rw (mark_new c u, handle_gossip) (persist_new on))

contains_head : (xs : List ℕ) (h : ℕ) → contains (h ∷ xs) h ≡ true
unfolding contains
contains_head xs h = ground arith

contains_later : (xs : List ℕ) (k h : ℕ) → (k == h) ≡ false → contains (k ∷ xs) h ≡ contains xs h
unfolding contains
contains_later xs k h n = rw n refl

-- One hash that was saved is loaded.
load_one :
    (x : Host) (session : Bytes) (m : Manager) (hash : ℕ) {bytes : Bytes}
    → x.net.serialize_hashes (hash ∷ []) ≡ some bytes
    → x.net.deserialize_hashes bytes ≡ some (hash ∷ [])
    → load_delivered_hashes x.net session (save_delivered_hashes x.net session (hash ∷ []) m)
      ≡ hash ∷ []
load_one x session m hash {bytes} made back =
    let short = trim_hashes_short (hash ∷ []) (omega arith) in
    (load_delivered_hashes-save_delivered_hashes x.net session (hash ∷ []) m {bytes = bytes}
      (rw short made) (rw short back)).0
    ∙ short

topic_nonempty : (topic : Bytes) → topic ≢ [] → (length topic == 0) ≡ false
topic_nonempty [] n = absurd (n refl)
topic_nonempty (b ∷ topic) n = ground arith

module _ (x : Host) (laws : HostLaws x) (from session payload : Bytes) where
  -- A message with the user's topic is for the user.
  gossip_topic :
      (g : Gateway)
      → session ≢ []
      → handle_p2p_event x (message_received from (x.hex_encode session) payload) g
        ≡ handle_gossip x session payload g
  unfolding handle_p2p_event handle_message_received
  gossip_topic g some_session =
      rw (topic_nonempty (x.hex_encode session) (laws.hex_nonempty session some_session))
        (rw (laws.hex_decode-hex_encode session) refl)

module _ (x : Host) (laws : HostLaws x) (now : ℕ) (from session : Bytes) (tx : ℕ) (payload : Bytes)
    (g : Gateway) {bytes : Bytes} where
  -- After the clean-up of a user's only connection, whose channel was open, a gossip message with
  -- the user's topic is sent to nobody; yet it is marked as delivered, so that on the user's next
  -- connection nothing with the hash of that message is sent, whatever the backup holds. The
  -- conditions are that the gateway has its mailbox, that the next channel is another one and is
  -- not closed, that the session id is not empty, and that a list of the one hash is saved and
  -- loaded.
  pub gossip_lost :
      session ≢ []
      → get bytes_order g.clients session ≡ some (tx ∷ [])
      → contains g.closed tx ≡ false
      → g.mailbox ≡ true
      → contains g.closed g.next_channel ≡ false
      → (tx == g.next_channel) ≡ false
      → x.net.serialize_hashes (x.payload_hash payload ∷ []) ≡ some bytes
      → x.net.deserialize_hashes bytes ≡ some (x.payload_hash payload ∷ [])
      → let k =
          handle_p2p_event x
            (message_received from (x.hex_encode session) payload)
            (disconnect x session tx g) in
        (k.sent ≡ g.sent)
        × (rest : List (ℕ × Bytes)) × ((connect x now session k).sent ≡ k.sent ++ rest)
        × (contains (sent_hashes x rest) (x.payload_hash payload) ≡ false)
  gossip_lost named sender live on new apart made back =
      let d = disconnect x session tx g in
      let left = disconnect-IsLeft x session tx g sender live in
      let gone = ap (λ c. contains c tx) left.closed ∙ contains_head g.closed tx in
      let is =
        gossip_topic x laws from session payload d named
        ∙ gossip_marks x session tx d payload left.sender gone left.unmarked (left.mailbox ∙ on) in
      let k = handle_p2p_event x (message_received from (x.hex_encode session) payload) d in
      let hash = x.payload_hash payload in
      let next =
        ap (λ c. contains c d.next_channel) left.closed
        ∙ ap (contains (tx ∷ g.closed)) left.next
        ∙ contains_later g.closed tx g.next_channel apart
        ∙ new in
      let loaded =
        ap (λ (j : Gateway). load_delivered_hashes x.net session j.manager) is
        ∙ load_one x session d.manager hash made back in
      let (rest, sent, skipped) =
        connect_skips_marked x now session k hash
          (ap (λ (j : Gateway). j.mailbox) is ∙ left.mailbox ∙ on)
          (ap (λ (j : Gateway). contains j.closed j.next_channel) is ∙ next)
          (ap (λ s. contains s hash) loaded ∙ contains_head [] hash) in
      (ap (λ (j : Gateway). j.sent) is ∙ left.sent, rest, sent, skipped)
