-- ===== src/Lib.antt =====
-- A model of the core of vurn-server: end-to-end encryption of messages with a hybrid double
-- ratchet, the identities and envelopes around it, and the mailboxes of a peer-to-peer relay.
--
-- core/ is code without state of its own. A client starts a session with a peer's identity
-- bundle (core/src/identity.rs, here Identity): core/src/bootstrap.rs (Bootstrap) derives a root
-- key and a session id from it, and core/src/ratchet.rs (Ratchet) encrypts from there.
-- core/src/signing.rs (Signing) authenticates payloads, and core/src/lib.rs (Package) encrypts to
-- a static key or with a symmetric one. server/ relays the opaque packages. The gateway
-- (server/src/ws.rs, Gateway) forwards a client's frame to the channels of its recipient. For a
-- recipient that is not connected it gives the node (server/src/p2p/node.rs, Node) a command to
-- store the message: the node signs an envelope (server/src/p2p/dht.rs, Dht), puts it into the DHT
-- and into the local backup, from which server/src/mailbox.rs (Mailbox) reads when the recipient
-- connects. Events of the node come to the gateway through server/src/main.rs (Gateway/Events).
--
-- State and operations. Ratchet has `Session` as a record; the methods of `&mut Session` are state
-- passing with an error (Ratchet/Step), and what was written before an error stays written, as in
-- the source. Ratchet/Kdf, Header, Chains, Encrypt and Decrypt hold the functions under their
-- names; `encrypt` and `decrypt` are composed of smaller steps. Ratchet/Codec is the serialisation.
-- Identity/Profile is `BlindProfileManager` on profiles: what a client registers with the gateway,
-- and how another resolves it. Node has the fields of `MailboxState` and what the handlers share as
-- records; Node/Store, Probe, Collect and Handlers hold the handlers, whose calls of the network,
-- events and replies are lists in their order. `run_command` is the event loop's arm for a command,
-- and Node/Redial has that for redials. `none` is a panic of the node's task.
-- Mailbox has a tree of the database as an ordered map (Prelude/SortedMap), as `BTreeMap` is.
--
-- Gateway has the shared state of the connections as a record, with the channels to the clients as
-- numbers, the closed ones and what was accepted on each; Gateway/Send holds what its parts share.
-- Gateway/Relay, Profile, Connection and Events hold the handlers, and Connection has one function
-- for each block that `handle_ws_connection` runs under the lock. Gateway/Steps lets these blocks
-- interleave. What the node answers to a look-up, in time or not, is an argument. `f64` tokens are
-- exact, in units of 10^-9. A payload is sent here once the channel of the client has accepted it:
-- what the forward task then does on the socket is outside the model.
--
-- Third-party code is a parameter: Crypto for the primitives of core/, with the laws that a
-- theorem may use, and `Net` of Dht for Ed25519, bincode and the ids of DHT queries, and
-- `Host` of Gateway for hex and the standard library's unspecified hash. The lower case of a name
-- (Identity/Profile) is a parameter too. Random bytes and the time are arguments. Numbers of fixed
-- width have their wrap-around written out where the code adds to them: the message numbers of a
-- session, the numbers of a mailbox and the attempts of a redial. The loops `skip_to`, `fire_window`
-- and that of `try_resolve_window` recurse on the number of rounds that are left, which is exact, so
-- there is no fuel.
--
-- Not modelled: the WebSocket transport and its pings, start-up, TLS and signals in
-- server/src/main.rs, the set-up of the swarm and the gossip events of the node, the addresses of
-- peers in the database, and failures of the database. Logs are left out. Of an invite link there
-- are the bytes, not the text.
--
-- Tests applies each theorem to a concrete input, with the primitives of Tests/Toy.
pub mod Prelude
pub mod Crypto
pub mod Ratchet
pub mod Signing
pub mod Package
pub mod Bootstrap
pub mod Identity
pub mod Dht
pub mod Mailbox
pub mod Node
pub mod Gateway
pub mod Tests
