-- ===== src/Node/Redial.antt =====
-- server/src/p2p/node.rs: the peers that the node knows, and the redial of those that it is not
-- connected to. Times are in nanoseconds. The database's copy of the addresses is left out, and so
-- is what the network makes of a dial, since the code only logs it.
use vurn_server.Prelude.{
  ℕ, ◌+◌, ◌-◌, ◌*◌, ◌%◌, ◌^◌, Bool, false, ◌||◌, Option, none, some, List, [], ◌∷◌, ◌++◌, leb, ◌==◌,
  if◌then◌else◌,
}
use vurn_server.Prelude.Bytes.{Bytes, bytes_eq}
use vurn_server.Prelude.SortedMap.{get, insert}
use vurn_server.Mailbox.{bytes_order}

abbrev pub max_reconnect_delay_secs : ℕ
max_reconnect_delay_secs = 60

abbrev pub u32_mod : ℕ
u32_mod = 2 ^ 32

-- The number of attempts and the time of the last one
abbrev pub Attempts : Type 0
Attempts = ℕ × ℕ

pub record Peers : Type 0 where
  pub known_peers : List (Bytes × Attempts)
  pub peer_addrs : List (Bytes × List Bytes)

unfoldable pub is_connected : List Bytes → Bytes → Bool
is_connected [] peer = false
is_connected (p ∷ connected) peer = bytes_eq p peer || is_connected connected peer

-- `known_peers.get(peer).copied().unwrap_or((0, now))`
unfoldable pub attempts_of : ℕ → List (Bytes × Attempts) → Bytes → Attempts
attempts_of now known peer = elim (get bytes_order known peer) [ none ↦ (0, now) | some a ↦ a ]

abbrev min : ℕ → ℕ → ℕ
min a b = if leb a b then a else b

unfoldable pub delay_secs : ℕ → ℕ
delay_secs attempt = min (2 ^ min attempt 6) max_reconnect_delay_secs

unfoldable pub is_due : ℕ → Attempts → Bool
is_due now (attempt, last_time) =
    attempt == 0 || leb (delay_secs attempt * 1000000000) (now - last_time)

-- What the loop adds to `to_redial` for a peer that is not connected.
unfoldable pub redial_peer : ℕ → Attempts → Bytes → List Bytes → List (Bytes × Bytes)
redial_peer now attempts peer [] = []
redial_peer now attempts peer (addr ∷ addrs) = if is_due now attempts then (peer, addr) ∷ [] else []

-- The loop over `peer_addrs`: `to_redial`, and the known peers.
unfoldable pub collect_redials :
    ℕ
    → List Bytes
    → List (Bytes × List Bytes)
    → List (Bytes × Attempts)
    → List (Bytes × Bytes) × List (Bytes × Attempts)
collect_redials now connected [] known = ([], known)
collect_redials now connected ((peer, addrs) ∷ rest) known =
    let here = is_connected connected peer in
    let known1 = if here then insert bytes_order known peer (0, now) else known in
    let dials = if here then [] else redial_peer now (attempts_of now known peer) peer addrs in
    let (others, known2) = collect_redials now connected rest known1 in (dials ++ others, known2)

-- The loop over `to_redial`.
unfoldable pub count_redials :
    ℕ → List (Bytes × Bytes) → List (Bytes × Attempts) → List (Bytes × Attempts)
count_redials now [] known = known
count_redials now ((peer, addr) ∷ dials) known =
    let attempt = (attempts_of now known peer).0 in
    count_redials now dials (insert bytes_order known peer ((attempt + 1) % u32_mod, now))

-- The arm of `reconnect_tick`, with the connected peers: what it dials, in order.
unfoldable pub reconnect_tick : ℕ → List Bytes → Peers → List (Bytes × Bytes) × Peers
reconnect_tick now connected p =
    let (dials, known) = collect_redials now connected p.peer_addrs p.known_peers in
    (dials, record p { known_peers = count_redials now dials known })

abbrev addresses : Option (List Bytes) → List Bytes
addresses none = []
addresses (some addrs) = addrs

-- The arms of `handle_swarm_event` for a connection: what they do to the peers.
unfoldable pub connection_established : ℕ → Bytes → Bytes → Peers → Peers
connection_established now peer addr p =
    let known = insert bytes_order p.known_peers peer (attempts_of now p.known_peers peer) in
    let addrs = addresses (get bytes_order p.peer_addrs peer) in
    record {
      known_peers = known;
      peer_addrs = insert bytes_order p.peer_addrs peer (addrs ++ (addr ∷ []));
    }

unfoldable pub connection_closed : ℕ → Bytes → Peers → Peers
connection_closed now peer p =
    let attempt = (attempts_of now p.known_peers peer).0 in
    record p { known_peers = insert bytes_order p.known_peers peer ((attempt + 1) % u32_mod, now) }
