-- ===== src/Gateway.antt =====
-- server/src/ws.rs: what the connections of the WebSocket gateway share, and the rate limiters. The
-- receiver of a channel belongs to a connection's forward task. Numbers of type `f64` are exact
-- here: tokens are counted in units of 10^-9, and the clock in nanoseconds.
pub mod Send
pub mod Relay
pub mod Connection
pub mod Events
pub mod Profile
pub mod Channels
pub mod Outcomes
pub mod NoLoss
pub mod Drain
pub mod Sent
pub mod Reconnect
pub mod Erasure
pub mod Offline
pub mod Limits
pub mod Marks
pub mod Registry
pub mod Requests
pub mod Takeover
pub mod Registration
pub mod Frames
pub mod ProfileFrames
pub mod Untouched
pub mod Owned
pub mod Steps
pub mod Private
pub mod Once
pub mod Stale
use vurn_server.Prelude.{
  ℕ, ◌+◌, ◌-◌, ◌*◌, ◌≡◌, ◌≢◌, Bool, true, false, Option, none, some, List, [], ◌∷◌, leb,
  if◌then◌else◌,
}
use vurn_server.Prelude.Bytes.{Bytes}
use vurn_server.Dht.{Net}
use vurn_server.Mailbox.{Manager}
use vurn_server.Node.{NodeCommand}

-- The hash of the standard library's `DefaultHasher`, whose algorithm is not specified, and the
-- crate hex.
pub record Host : Type 0 where
  pub net : Net
  pub payload_hash : Bytes → ℕ
  pub hex_encode : Bytes → Bytes
  pub hex_decode : Bytes → Option Bytes

pub record HostLaws (x : Host) : Type 0 where
  pub hex_decode-hex_encode : (b : Bytes) → x.hex_decode (x.hex_encode b) ≡ some b
  pub hex_nonempty : (b : Bytes) → b ≢ [] → x.hex_encode b ≢ []

abbrev pub nano : ℕ
nano = 1000000000

abbrev pub profile_success : Bytes
profile_success = 0xFE ∷ 0 ∷ 0 ∷ []

abbrev pub profile_occupied : Bytes
profile_occupied = 0xFF ∷ 0 ∷ 1 ∷ []

abbrev pub rate_limit_store_per_sec : ℕ
rate_limit_store_per_sec = 10

abbrev pub rate_limit_lookup_per_sec : ℕ
rate_limit_lookup_per_sec = 1

abbrev pub max_delivered_hashes : ℕ
max_delivered_hashes = 4096

pub record TokenBucket : Type 0 where
  pub tokens : ℕ
  pub last_refill : ℕ
  pub rate : ℕ
  pub capacity : ℕ

-- `TokenBucket::new(rate, capacity)` at the time `now`
unfoldable pub new_bucket : ℕ → ℕ → ℕ → TokenBucket
new_bucket now rate capacity = record {
  tokens = capacity * nano;
  last_refill = now;
  rate = rate;
  capacity = capacity * nano;
}

-- The clock is read twice: at `read` for the time that has passed, and at `stamp`.
unfoldable pub refill : ℕ → ℕ → TokenBucket → TokenBucket
refill read stamp b =
    let elapsed = read - b.last_refill in
    let grown = b.tokens + elapsed * b.rate in
    record b { tokens = if leb grown b.capacity then grown else b.capacity; last_refill = stamp }

-- `n` is in whole tokens.
unfoldable pub try_consume : ℕ → ℕ → ℕ → TokenBucket → Bool × TokenBucket
unfolding refill
try_consume read stamp n b =
    let full = refill read stamp b in
    if leb (n * nano) full.tokens
    then (true, record full { tokens = full.tokens - n * nano })
    else (false, full)

-- The sender of the node's command channel, and what was sent. A send fails once the node has
-- dropped its receiver.
pub record CommandSender : Type 0 where
  pub is_dropped : Bool
  pub commands : List NodeCommand

-- `GatewayStateInner`, with the channels to the clients. A channel is a number, and its clones are
-- the same number: `closed` holds those whose receiver is dropped, `sent` what was accepted, in its
-- order. The manager is shared with the event loop, which has it even if `mailbox` is not set.
pub record Gateway : Type 0 where
  pub clients : List (Bytes × List ℕ)
  pub p2p_cmd_tx : Option CommandSender
  pub p2p_connected : Bool
  pub rate_limiters : List (Bytes × (TokenBucket × TokenBucket))
  pub delivered_hashes : List (Bytes × List ℕ)
  pub mailbox : Bool
  pub manager : Manager
  pub next_channel : ℕ
  pub closed : List ℕ
  pub sent : List (ℕ × Bytes)

-- `GatewayStateInner::default`, beside a manager
unfoldable pub default : Manager → Gateway
default manager = record {
  clients = [];
  p2p_cmd_tx = none;
  p2p_connected = false;
  rate_limiters = [];
  delivered_hashes = [];
  mailbox = false;
  manager = manager;
  next_channel = 0;
  closed = [];
  sent = [];
}

-- The status that `health_handler` answers.
unfoldable pub health_handler : Gateway → ℕ
health_handler g = if g.p2p_connected then 200 else 503
