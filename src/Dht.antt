-- ===== src/Dht.antt =====
-- server/src/p2p/dht.rs: keys, envelopes and mailbox messages of the DHT. The crates ed25519-dalek
-- and bincode are a parameter.
pub mod Keys
pub mod Envelope
use vurn_server.Prelude.{
  ℕ, zero, suc, ◌+◌, ◌%◌, ◌<◌, ◌≡◌, Bool, true, not, ◌&&◌, Option, none, some, List, [], ◌∷◌, ◌++◌,
  ltb, ◌==◌, if◌then◌else◌, length, take, drop, Result, ok, err, ◌>>=◌, ok_or,
}
use vurn_server.Prelude.Bytes.{Bytes, bytes_eq, u16_le, u16_from_le}
use vurn_server.Prelude.Digits.{le_bytes, digits, parse_digits}

pub record DhtEnvelope : Type 0 where
  pub payload : Bytes
  pub seq : ℕ
  pub sender_pubkey : Bytes
  pub signature : Bytes

-- Ed25519: the public key of a secret, the decoding test of a public key, signing and
-- verification; bincode's encoding of an envelope and of a list of hashes.
pub record Net : Type 0 where
  pub ed_public : Bytes → Bytes
  pub ed_is_key : Bytes → Bool
  pub ed_sign : Bytes → Bytes → Bytes
  pub ed_verify : Bytes → Bytes → Bytes → Bool
  pub serialize_envelope : DhtEnvelope → Option Bytes
  pub deserialize_envelope : Bytes → Option DhtEnvelope
  pub serialize_hashes : List ℕ → Option Bytes
  pub deserialize_hashes : Bytes → Option (List ℕ)
  -- Kademlia: the id that the `n`-th call of `get_record` returns
  pub query_id : ℕ → ℕ

pub record NetLaws (w : Net) : Type 0 where
  pub ed_public_length : (sk : Bytes) → length (w.ed_public sk) ≡ 32
  pub ed_public_is_key : (sk : Bytes) → w.ed_is_key (w.ed_public sk) ≡ true
  pub ed_signature_length : (sk m : Bytes) → length (w.ed_sign sk m) ≡ 64
  pub ed_verify-ed_sign : (sk m : Bytes) → w.ed_verify (w.ed_public sk) m (w.ed_sign sk m) ≡ true
  pub deserialize-serialize :
      (e : DhtEnvelope) {bytes : Bytes}
      → w.serialize_envelope e ≡ some bytes
      → w.deserialize_envelope bytes ≡ some e

pub data EnvelopeError : Type 0 where
  bad_pubkey_length bad_pubkey bad_signature_length short_hash verification_failed : EnvelopeError

pub data MessageError : Type 0 where
  missing_id_len missing_id empty_payload : MessageError

-- "vmb_", "vup_" and "vut_"
abbrev pub mailbox_key_prefix : Bytes
mailbox_key_prefix = 118 ∷ 109 ∷ 98 ∷ 95 ∷ []

abbrev pub profile_key_prefix : Bytes
profile_key_prefix = 118 ∷ 117 ∷ 112 ∷ 95 ∷ []

abbrev pub update_key_prefix : Bytes
update_key_prefix = 118 ∷ 117 ∷ 116 ∷ 95 ∷ []

abbrev pub underscore : ℕ
underscore = 95

abbrev pub starts_with : Bytes → Bytes → Bool
starts_with prefix bytes = bytes_eq (take (length prefix) bytes) prefix

unfoldable pub mailbox_seq_key : Bytes → ℕ → Bytes
mailbox_seq_key user_hash seq = mailbox_key_prefix ++ (user_hash ++ (underscore ∷ digits 20 seq))

-- `rposition`
unfoldable pub rposition : ℕ → Bytes → Option ℕ
rposition b [] = none
rposition b (x ∷ xs) = elim (rposition b xs) [
  | some i ↦ some (suc i)
  | none ↦ if x == b then some zero else none
]

unfoldable pub parse_user_hash_from_key : Bytes → Option Bytes
parse_user_hash_from_key key =
    if not (starts_with mailbox_key_prefix key)
    then none
    else elim (rposition underscore (drop 4 key)) [
      | none ↦ none
      | some hash_end ↦ some (take hash_end (drop 4 key))
    ]

-- `str::parse::<u64>`, which takes a `+` before the digits.
unfoldable pub parse_u64 : Bytes → Option ℕ
parse_u64 [] = none
parse_u64 (x ∷ []) = parse_digits 0 (x ∷ [])
parse_u64 (x ∷ y ∷ xs) = if x == 43 then parse_digits 0 (y ∷ xs) else parse_digits 0 (x ∷ y ∷ xs)

-- Bytes that are no UTF-8 are no digits either.
unfoldable pub parse_mailbox_key : Bytes → Option (Bytes × ℕ)
parse_mailbox_key key = elim (parse_user_hash_from_key key) [
  | none ↦ none
  | some user_hash ↦ elim (rposition underscore (drop 4 key)) [
    | none ↦ none
    | some hash_end ↦ elim (parse_u64 (drop (suc hash_end) (drop 4 key))) [
      | none ↦ none
      | some seq ↦ some (user_hash, seq)
    ]
  ]
]

unfoldable pub profile_key : Bytes → Bytes
profile_key search_index = profile_key_prefix ++ search_index

unfoldable pub parse_profile_key : Bytes → Option Bytes
parse_profile_key key = if not (starts_with profile_key_prefix key) then none else some (drop 4 key)

unfoldable pub update_key : Bytes → Bytes
update_key search_index = update_key_prefix ++ search_index

unfoldable pub parse_update_key : Bytes → Option Bytes
parse_update_key key = if not (starts_with update_key_prefix key) then none else some (drop 4 key)

unfoldable pub build_verify_buffer : Bytes → ℕ → Bytes → Option Bytes
build_verify_buffer payload seq recipient_hash =
    if ltb (length recipient_hash) 32
    then none
    else some (payload ++ (le_bytes 8 seq ++ take 32 recipient_hash))

unfoldable pub encode_mailbox_message : Bytes → Bytes → Bytes
encode_mailbox_message sender_hash encrypted_payload =
    u16_le (length sender_hash % 65536) ++ (sender_hash ++ encrypted_payload)

unfoldable pub decode_mailbox_message : Bytes → Result MessageError (Bytes × Bytes)
decode_mailbox_message bytes =
    let id_len = u16_from_le bytes in
    if ltb (length bytes) 2
    then err missing_id_len
    else if ltb (length bytes) (2 + id_len)
    then err missing_id
    else if length (drop id_len (drop 2 bytes)) == 0
    then err empty_payload
    else ok (take id_len (drop 2 bytes), drop id_len (drop 2 bytes))

module _ (w : Net) where
  unfoldable pub verify_envelope : DhtEnvelope → Bytes → Result EnvelopeError (Unit {0})
  verify_envelope e recipient_hash =
      if not (length e.sender_pubkey == 32)
      then err bad_pubkey_length
      else if not (w.ed_is_key e.sender_pubkey)
      then err bad_pubkey
      else if not (length e.signature == 64)
      then err bad_signature_length
      else do
        verify_buf ← ok_or short_hash (build_verify_buffer e.payload e.seq recipient_hash)
        if w.ed_verify e.sender_pubkey verify_buf e.signature
            then ok tt
            else err verification_failed

  -- The source panics for a recipient hash that is too short; here that is `none`.
  unfoldable pub sign_envelope : DhtEnvelope → Bytes → Bytes → Option DhtEnvelope
  sign_envelope e signing_key recipient_hash =
      elim (build_verify_buffer e.payload e.seq recipient_hash) [
        | none ↦ none
        | some verify_buf ↦ some (record e { signature = w.ed_sign signing_key verify_buf })
      ]
