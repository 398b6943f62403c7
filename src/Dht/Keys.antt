-- ===== src/Dht/Keys.antt =====
-- server/src/p2p/dht.rs: the keys of the DHT parse to what they were made from.
use vurn_server.Prelude.{
  ℕ, zero, suc, ◌+◌, ◌/◌, ◌%◌, ◌^◌, ◌<◌, ◌≡◌, ◌≢◌, refl, ap, none, some, [], ◌∷◌, ◌++◌, arith,
  length, drop, take-append,
}
use vurn_server.Prelude.Bytes.{Bytes, bytes_eq}
use vurn_server.Prelude.Digits.{digits, parse_digits-digits}
use vurn_server.Dht.{
  underscore, mailbox_key_prefix, rposition, mailbox_seq_key, parse_user_hash_from_key, parse_u64,
  parse_mailbox_key, profile_key, parse_profile_key, update_key, parse_update_key,
}

rposition-snoc :
    (b d : ℕ) (xs : Bytes) → rposition b xs ≡ none → d ≢ b → rposition b (xs ++ (d ∷ [])) ≡ none
unfolding rposition
rposition-snoc b d [] h k = ground (arith, k)
rposition-snoc b d (x ∷ xs) h k = ground (arith, k, rposition-snoc b d xs)

rposition-digits : (k n : ℕ) → rposition underscore (digits k n) ≡ none
unfolding rposition
rposition-digits zero n = refl
rposition-digits (suc k) n =
    rposition-snoc underscore (48 + n % 10) (digits k (n / 10)) (rposition-digits k (n / 10))
      (λ e. absurd (omega arith))

rposition-append :
    (b : ℕ) (xs ys : Bytes)
    → rposition b ys ≡ none
    → rposition b (xs ++ (b ∷ ys)) ≡ some (length xs)
unfolding rposition
rposition-append b [] ys h = ground (arith)
rposition-append b (x ∷ xs) ys h = rw (rposition-append b xs ys h) refl

parse_u64-digits : (n : ℕ) → n < 2 ^ 64 → parse_u64 (digits 20 n) ≡ some n
unfolding parse_u64
parse_u64-digits n h = ground (arith, parse_digits-digits 20 n)

parse_user_hash :
    (h ds : Bytes)
    → rposition underscore ds ≡ none
    → parse_user_hash_from_key (mailbox_key_prefix ++ (h ++ (underscore ∷ ds))) ≡ some h
unfolding parse_user_hash_from_key bytes_eq
parse_user_hash h ds e =
    rw (rposition-append underscore h ds e)
      (ap some (take-append (length h) h (underscore ∷ ds) refl))

drop_past : (h ds : Bytes) → drop (suc (length h)) (h ++ (underscore ∷ ds)) ≡ ds
drop_past [] ds = refl
drop_past (x ∷ h) ds = drop_past h ds

parse_key :
    (h ds : Bytes) (n : ℕ)
    → rposition underscore ds ≡ none
    → parse_u64 ds ≡ some n
    → parse_mailbox_key (mailbox_key_prefix ++ (h ++ (underscore ∷ ds))) ≡ some (h, n)
unfolding parse_mailbox_key
parse_key h ds n e f =
    rw (parse_user_hash h ds e, parse_mailbox_key)
      (rw (rposition-append underscore h ds e) (rw (drop_past h ds) (rw f refl)))

-- The key of a mailbox message parses to the user's hash, whatever bytes that has, and the number
-- of the message, where that is a u64.
pub parse_mailbox_key-mailbox_seq_key :
    (user_hash : Bytes) (seq : ℕ)
    → seq < 2 ^ 64
    → parse_mailbox_key (mailbox_seq_key user_hash seq) ≡ some (user_hash, seq)
unfolding mailbox_seq_key
parse_mailbox_key-mailbox_seq_key user_hash seq h =
    parse_key user_hash (digits 20 seq) seq (rposition-digits 20 seq) (parse_u64-digits seq h)

-- The key of a profile or of an update token parses to its search index, and neither parses as
-- the other or as a mailbox key.
pub profile_keys_apart :
    (search_index : Bytes)
    → (parse_profile_key (profile_key search_index) ≡ some search_index)
      × (parse_update_key (update_key search_index) ≡ some search_index)
      × (parse_profile_key (update_key search_index) ≡ none)
      × (parse_update_key (profile_key search_index) ≡ none)
      × (parse_mailbox_key (profile_key search_index) ≡ none)
      × (parse_mailbox_key (update_key search_index) ≡ none)
unfolding parse_profile_key parse_update_key profile_key update_key parse_mailbox_key
    parse_user_hash_from_key bytes_eq
profile_keys_apart search_index = (refl, refl, refl, refl, refl, refl)
