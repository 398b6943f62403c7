-- ===== src/Ratchet.antt =====
-- core/src/ratchet.rs: the constants, the errors and the session state. The operations are in
-- Kdf, Header, Chains, Encrypt, Decrypt and Codec; the other modules prove.
pub mod Kdf
pub mod Header
pub mod Step
pub mod Chains
pub mod Encrypt
pub mod Decrypt
pub mod Delivery
pub mod Sent
pub mod InOrder
pub mod Conversation
pub mod FirstContact
pub mod Bounds
pub mod Skips
pub mod OutOfOrder
pub mod Replay
pub mod Codec
use Prim.Native.Nat.{compare, Ordering}
use vurn_server.Prelude.{ℕ, ◌^◌, ◌≡◌, refl, Bool, Option, List, [], ◌∷◌, arith, Result, ok, err}
use vurn_server.Prelude.Bytes.{Bytes, bytes_compare, bytes_compare-eq, bytes_compare_refl}
use vurn_server.Prelude.SortedMap.{Order}

abbrev pub kem_pk_len : ℕ
kem_pk_len = 1568

abbrev pub kem_sk_len : ℕ
kem_sk_len = 3168

abbrev pub kem_ct_len : ℕ
kem_ct_len = 1568

abbrev pub pkg_version : ℕ
pkg_version = 0x0a

abbrev pub session_version : ℕ
session_version = 0x0b

abbrev pub max_skip : ℕ
max_skip = 1000

abbrev pub max_skipped_total : ℕ
max_skipped_total = 2000

abbrev pub u32_mod : ℕ
u32_mod = 2 ^ 32

pub data DecryptError : Type 0 where
  malformed out_of_order no_state auth_failed : DecryptError

pub record AdvertisedKem : Type 0 where
  pub pk : Bytes
  pub sk : Bytes

-- The key of the skipped-message-key store: the peer's ratchet key and the message number.
abbrev pub StoreKey : Type 0
StoreKey = Bytes × ℕ

-- `Ord` of a pair: the first component decides, then the second.
abbrev pub store_cmp : StoreKey → StoreKey → Ordering
store_cmp (d, n) (e, m) = elim (bytes_compare d e) [
  | Ordering.lt ↦ Ordering.lt
  | Ordering.gt ↦ Ordering.gt
  | Ordering.eq ↦ compare n m
]

pub store_cmp-eq : (a b : StoreKey) → store_cmp a b ≡ Ordering.eq → a ≡ b
store_cmp-eq (d, n) (e, m) h = ground (arith, bytes_compare-eq d e)

pub store_cmp_refl : (a : StoreKey) → store_cmp a a ≡ Ordering.eq
store_cmp_refl (d, n) = ground (arith, bytes_compare_refl d)

abbrev pub store_order : Order StoreKey
store_order = record { cmp = store_cmp; cmp-eq = store_cmp-eq; cmp-refl = store_cmp_refl }

pub record Session : Type 0 where
  pub session_id : Bytes
  pub rk : Bytes
  pub dh_s : Bytes × Bytes
  pub dh_r : Option Bytes
  pub ck_s : Option Bytes
  pub ck_r : Option Bytes
  pub n_s : ℕ
  pub n_r : ℕ
  pub pn : ℕ
  pub kem_advertised : List AdvertisedKem
  pub kem_peer : Option Bytes
  pub advertise_kem_next : Bool
  pub skipped : List (StoreKey × Bytes)
  pub initialized : Bool

pub record SessionStart : Type 0 where
  pub root : Bytes
  pub session_id : Bytes
  pub our_dh : Bytes × Bytes
  pub peer_dh : Option Bytes
  pub our_kem : Option (Bytes × Bytes)
