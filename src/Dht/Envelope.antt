-- ===== src/Dht/Envelope.antt =====
-- server/src/p2p/dht.rs: signed envelopes verify, and mailbox messages decode.
use vurn_server.Prelude.{
  ℕ, ◌%◌, ◌≤◌, ◌<◌, ◌≡◌, ◌↔◌, refl, true, some, ◌++◌, arith, length, take, length-append,
  take-append, drop-append, ok,
}
use vurn_server.Prelude.Bytes.{Bytes, u16_from_le-u16_le}
use vurn_server.Prelude.Digits.{le_bytes}
use vurn_server.Dht.{
  Net, NetLaws, DhtEnvelope, build_verify_buffer, verify_envelope, sign_envelope,
  encode_mailbox_message, decode_mailbox_message,
}

buffer :
    (payload : Bytes) (seq : ℕ) (recipient_hash : Bytes)
    → 32 ≤ length recipient_hash
    → (buf : Bytes) × (build_verify_buffer payload seq recipient_hash ≡ some buf)
unfolding build_verify_buffer
buffer payload seq recipient_hash h =
    (payload ++ (le_bytes 8 seq ++ take 32 recipient_hash), ground arith)

-- What an envelope must have to be accepted for a recipient.
pub record IsAuthentic (w : Net) (e : DhtEnvelope) (recipient_hash : Bytes) : Type 0 where
  pub key_length : length e.sender_pubkey ≡ 32
  pub is_key : w.ed_is_key e.sender_pubkey ≡ true
  pub signature_length : length e.signature ≡ 64
  pub hash_length : 32 ≤ length recipient_hash
  pub signed :
      w.ed_verify e.sender_pubkey
        (e.payload ++ (le_bytes 8 e.seq ++ take 32 recipient_hash))
        e.signature
      ≡ true

accepted :
    (w : Net) (e : DhtEnvelope) (recipient_hash : Bytes)
    → verify_envelope w e recipient_hash ≡ ok tt
    → IsAuthentic w e recipient_hash
unfolding verify_envelope build_verify_buffer
accepted w e recipient_hash h = record {
  key_length = ground arith;
  is_key = ground arith;
  signature_length = ground arith;
  hash_length = ground arith;
  signed = ground arith;
}

accepts :
    (w : Net) (e : DhtEnvelope) (recipient_hash : Bytes)
    → IsAuthentic w e recipient_hash
    → verify_envelope w e recipient_hash ≡ ok tt
unfolding verify_envelope build_verify_buffer
accepts w e recipient_hash a =
    ground (arith, a.key_length, a.is_key, a.signature_length, a.hash_length, a.signed)

-- An envelope is accepted for a recipient exactly if it has a key and a signature of their lengths,
-- the recipient hash at least 32 bytes, and the signature is valid for the payload, the number and
-- the first 32 bytes of the hash.
pub verify_envelope_iff :
    (w : Net) (e : DhtEnvelope) (recipient_hash : Bytes)
    → (verify_envelope w e recipient_hash ≡ ok tt) ↔ IsAuthentic w e recipient_hash
verify_envelope_iff w e recipient_hash = (accepted w e recipient_hash, accepts w e recipient_hash)

module _ {w : Net} (laws : NetLaws w) where
  verified :
      (e : DhtEnvelope) (signing_key recipient_hash buf : Bytes)
      → e.sender_pubkey ≡ w.ed_public signing_key
      → build_verify_buffer e.payload e.seq recipient_hash ≡ some buf
      → e.signature ≡ w.ed_sign signing_key buf
      → verify_envelope w e recipient_hash ≡ ok tt
  unfolding verify_envelope
  verified e signing_key recipient_hash buf own made signed =
      rw (own, signed, made)
        (ground (
          arith,
          laws.ed_public_length signing_key,
          laws.ed_public_is_key signing_key,
          laws.ed_signature_length signing_key buf,
          laws.ed_verify-ed_sign signing_key buf,
        ))

  -- An envelope that carries the public key of a signing key, signed with that key for a
  -- recipient hash of at least 32 bytes, verifies for that recipient.
  pub verify_envelope-sign_envelope :
      (e : DhtEnvelope) (signing_key recipient_hash : Bytes)
      → e.sender_pubkey ≡ w.ed_public signing_key
      → 32 ≤ length recipient_hash
      → (signed : DhtEnvelope) × (sign_envelope w e signing_key recipient_hash ≡ some signed)
        × (signed.payload ≡ e.payload)
        × (signed.seq ≡ e.seq)
        × (verify_envelope w signed recipient_hash ≡ ok tt)
  unfolding sign_envelope
  verify_envelope-sign_envelope e signing_key recipient_hash own long =
      let (buf, made) = buffer e.payload e.seq recipient_hash long in
      (
        record e { signature = w.ed_sign signing_key buf },
        rw (made, sign_envelope) refl,
        refl,
        refl,
        verified (record e { signature = w.ed_sign signing_key buf }) signing_key recipient_hash buf
            own made refl,
      )

-- A mailbox message whose sender hash fits the length field and whose payload is not empty
-- decodes to both.
pub decode_mailbox_message-encode_mailbox_message :
    (sender_hash payload : Bytes)
    → length sender_hash < 65536
    → 0 < length payload
    → decode_mailbox_message (encode_mailbox_message sender_hash payload)
      ≡ ok (sender_hash, payload)
unfolding decode_mailbox_message encode_mailbox_message
decode_mailbox_message-encode_mailbox_message sender_hash payload h k =
    let small : length sender_hash % 65536 ≡ length sender_hash = omega arith in
    rw
      (
        small,
        u16_from_le-u16_le (length sender_hash) h,
        drop-append (length sender_hash) sender_hash payload refl,
        take-append (length sender_hash) sender_hash payload refl,
      )
      (ground (arith, length-append sender_hash payload))
