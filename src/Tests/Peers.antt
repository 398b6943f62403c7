-- ===== src/Tests/Peers.antt =====
-- The redial of peers at a concrete input.
use mathlib.Core.List.{Memᴰ}
use vurn_server.Prelude.{◌↔◌, List, [], ◌∷◌}
use vurn_server.Prelude.Bytes.{Bytes}
use vurn_server.Node.Redial.{Peers, reconnect_tick}
use vurn_server.Node.Dials.{IsRedialled, reconnect_tick_iff}

-- The first peer was dialled twice, the last time at 0; the other one is connected.
abbrev peers : Peers
peers = record {
  known_peers = ((1 ∷ []), (2, 0)) ∷ ((2 ∷ []), (3, 0)) ∷ [];
  peer_addrs = ((1 ∷ []), ((11 ∷ []) ∷ (12 ∷ []) ∷ [])) ∷ ((2 ∷ []), ((13 ∷ []) ∷ [])) ∷ [];
}

abbrev connected : List Bytes
connected = (2 ∷ []) ∷ []

reconnect_tick_iff_example :
    Memᴰ (1 ∷ [], 11 ∷ []) (reconnect_tick 5000000000 connected peers).0
    ↔ IsRedialled 5000000000 connected peers.peer_addrs peers.known_peers (1 ∷ []) (11 ∷ [])
reconnect_tick_iff_example = reconnect_tick_iff 5000000000 connected peers (1 ∷ []) (11 ∷ [])
