-- ===== src/Tests/Sessions.antt =====
-- The theorems on core/src/ratchet.rs at concrete sessions.
use vurn_server.Prelude.{
  ◌≡◌, refl, true, false, Option, none, some, [], ◌∷◌, arith, ok, err, to_option,
}
use vurn_server.Prelude.Bytes.{Bytes, bytes_eq}
use vurn_server.Prelude.SortedMap.{get, remove}
use vurn_server.Ratchet.{Session, SessionStart, out_of_order, store_order}
use vurn_server.Ratchet.Kdf.{
  chain_step, root_step, mix_kem, aead_key, x25519_shared, x25519_keypair, aead_encrypt,
}
use vurn_server.Ratchet.Chains.{start_alice, start_bob, open_send_chain, skip_to}
use vurn_server.Ratchet.Encrypt.{
  Draws, next_send_key, advertise, encapsulate_to, seal_package, encrypt_open, encrypt,
}
use vurn_server.Ratchet.Decrypt.{is_new_chain, decrypt}
use vurn_server.Ratchet.Conversation.{InStep, InTurn, decrypt-encrypt, decrypt-encrypt_turn}
use vurn_server.Ratchet.FirstContact.{decrypt-encrypt_first}
use vurn_server.Ratchet.OutOfOrder.{done, next, decrypt_out_of_order}
use vurn_server.Ratchet.Replay.{decrypt_again}
use vurn_server.Ratchet.Bounds.{IsBounded, decrypt-IsBounded}
use vurn_server.Ratchet.Skips.{Skipped, message_key, skip_to-keeps}
use vurn_server.Tests.Toy.{fit, length-fit, toy, toy-CryptoLaws}

abbrev pub hello : Bytes
hello = 104 ∷ 105 ∷ []

abbrev pub draws : Draws
draws = record { dh_secret = 1 ∷ []; kem_seed = 2 ∷ []; coins = 3 ∷ [] }

-- A sender on its open chain, with one message sent, and a receiver that has had it.
abbrev pub sender : Session
sender = record {
  session_id = 7 ∷ [];
  rk = 9 ∷ [];
  dh_s = (fit 32 (1 ∷ []), 1 ∷ []);
  dh_r = some (fit 32 (2 ∷ []));
  ck_s = some (5 ∷ []);
  ck_r = none;
  n_s = 1;
  n_r = 0;
  pn = 0;
  kem_advertised = [];
  kem_peer = none;
  advertise_kem_next = false;
  skipped = [];
  initialized = true;
}

abbrev pub receiver : Session
receiver = record {
  session_id = 7 ∷ [];
  rk = 9 ∷ [];
  dh_s = (fit 32 (2 ∷ []), 2 ∷ []);
  dh_r = some (fit 32 (1 ∷ []));
  ck_s = none;
  ck_r = some (5 ∷ []);
  n_s = 0;
  n_r = 1;
  pn = 0;
  kem_advertised = [];
  kem_peer = none;
  advertise_kem_next = true;
  skipped = [];
  initialized = true;
}

pub sender-InStep : InStep toy-CryptoLaws sender receiver
unfolding get
sender-InStep = record {
  sender = record {
    pn_fits = omega arith;
    n_fits = omega arith;
    key_length = length-fit 32 (1 ∷ []);
  };
  initialized = refl;
  same_id = refl;
  ck = 5 ∷ [];
  sending = refl;
  receiving = refl;
  same_key = refl;
  same_number = refl;
  kem_ready = tt;
  not_stored = λ n h. refl;
}

-- The package of an encryption, and the session afterwards.
abbrev pub pkg_of : Option Bytes → Bytes
pkg_of none = []
pkg_of (some pkg) = pkg

abbrev pub sent : Bytes → Session → Bytes
sent pt s = pkg_of (to_option (encrypt toy draws pt s).0)

abbrev pub after : Bytes → Session → Session
after pt s = (encrypt toy draws pt s).1

pub sent_is : encrypt toy draws hello sender ≡ (ok (sent hello sender), after hello sender)
unfolding encrypt open_send_chain encrypt_open next_send_key advertise encapsulate_to seal_package
    aead_encrypt aead_key mix_kem chain_step
sent_is = refl

decrypt-encrypt_example :
    (b : Session) × (decrypt toy (sent hello sender) receiver ≡ (ok hello, b))
    × InStep toy-CryptoLaws (after hello sender) b
decrypt-encrypt_example =
    decrypt-encrypt toy-CryptoLaws draws hello sender receiver sender-InStep (omega arith) sent_is

decrypt_again_example :
    (b : Session) × (decrypt toy (sent hello sender) receiver ≡ (ok hello, b))
    × (decrypt toy (sent hello sender) b ≡ (err out_of_order, b))
decrypt_again_example =
    decrypt_again toy-CryptoLaws draws hello sender receiver sender-InStep (omega arith) sent_is

sent_next_is :
    encrypt toy draws hello (after hello sender)
    ≡ (ok (sent hello (after hello sender)), after hello (after hello sender))
unfolding encrypt open_send_chain encrypt_open next_send_key advertise encapsulate_to seal_package
    aead_encrypt aead_key mix_kem chain_step
sent_next_is = refl

decrypt_out_of_order_example :
    (b : Session) × (decrypt toy (sent hello (after hello sender)) receiver ≡ (ok hello, b))
    × InStep toy-CryptoLaws (after hello (after hello sender)) b
    × (decrypt toy (sent hello sender) b
        ≡ (ok hello, record b { skipped = remove store_order b.skipped (fit 32 (1 ∷ []), 1) }))
decrypt_out_of_order_example =
    decrypt_out_of_order toy-CryptoLaws draws draws hello hello sender receiver sender
      (after hello sender) 0 1 sender-InStep done
      (next draws hello (sent hello sender) sent_is done) (omega arith) (omega arith) (omega arith)
      (omega arith) sent_next_is sent_is

turn_due : InTurn toy-CryptoLaws draws.dh_secret receiver sender
unfolding get is_new_chain bytes_eq fit
turn_due = record {
  pn_fits = omega arith;
  closed = refl;
  keypair = refl;
  same_peer = refl;
  same_root = refl;
  same_id = refl;
  initialized = refl;
  all_received = refl;
  kem_ready = tt;
  new_key = refl;
  not_stored = λ n. refl;
}

turn_sent_is : encrypt toy draws hello receiver ≡ (ok (sent hello receiver), after hello receiver)
unfolding encrypt open_send_chain encrypt_open next_send_key advertise encapsulate_to seal_package
    aead_encrypt aead_key mix_kem chain_step root_step x25519_shared x25519_keypair
turn_sent_is = refl

decrypt-encrypt_turn_example :
    (b : Session) × (decrypt toy (sent hello receiver) sender ≡ (ok hello, b))
    × InStep toy-CryptoLaws (after hello receiver) b
    × (b.rk ≡ (after hello receiver).rk)
decrypt-encrypt_turn_example =
    decrypt-encrypt_turn toy-CryptoLaws draws hello receiver sender turn_due turn_sent_is

abbrev alice : SessionStart
alice = record {
  root = 9 ∷ [];
  session_id = 7 ∷ [];
  our_dh = (fit 32 (1 ∷ []), 1 ∷ []);
  peer_dh = some (fit 32 (2 ∷ []));
  our_kem = none;
}

abbrev bob : SessionStart
bob = record {
  root = 9 ∷ [];
  session_id = 7 ∷ [];
  our_dh = (fit 32 (2 ∷ []), 2 ∷ []);
  peer_dh = none;
  our_kem = none;
}

abbrev or_session : Option Session → Session
or_session none = sender
or_session (some s) = s

abbrev started : Session
started = or_session (start_alice toy alice)

started_is : start_alice toy alice ≡ some started
unfolding start_alice x25519_shared root_step
started_is = refl

first_sent_is : encrypt toy draws hello started ≡ (ok (sent hello started), after hello started)
unfolding encrypt open_send_chain encrypt_open next_send_key advertise encapsulate_to seal_package
    aead_encrypt aead_key mix_kem chain_step root_step x25519_shared start_alice
first_sent_is = refl

decrypt-encrypt_first_example :
    (b : Session) × (decrypt toy (sent hello started) (start_bob toy (4 ∷ []) bob) ≡ (ok hello, b))
    × InStep toy-CryptoLaws (after hello started) b
    × (b.rk ≡ (after hello started).rk)
decrypt-encrypt_first_example =
    decrypt-encrypt_first toy-CryptoLaws draws hello (4 ∷ []) alice bob started started_is refl refl
      refl refl refl first_sent_is

receiver-IsBounded : IsBounded receiver
receiver-IsBounded = record { store = omega arith; advertised = omega arith }

decrypt-IsBounded_example : IsBounded (decrypt toy (sent hello sender) receiver).1
decrypt-IsBounded_example = decrypt-IsBounded toy (sent hello sender) receiver receiver-IsBounded

skip_to-keeps_example :
    (t : Session) × (skip_to toy 4 receiver ≡ (ok tt, t))
    × Skipped toy 3 (5 ∷ []) receiver t
    × (get store_order t.skipped (fit 32 (1 ∷ []), 2) ≡ some (message_key toy (5 ∷ []) 1))
skip_to-keeps_example =
    skip_to-keeps toy 3 1 (fit 32 (1 ∷ [])) (5 ∷ []) receiver refl refl (omega arith) (omega arith)
      (omega arith)
