-- ===== src/Tests/Forgeries.antt =====
-- The header of a package, and packages that were not encrypted by the peer, at concrete inputs.
use vurn_server.Prelude.{
  ℕ, ◌<◌, ◌≡◌, ◌≢◌, refl, ap, true, none, [], ◌∷◌, ◌++◌, arith, get_or, replicate, ok, err,
}
use vurn_server.Prelude.Bytes.{Bytes, bytes_eq}
use vurn_server.Prelude.SortedMap.{get}
use vurn_server.Ratchet.{out_of_order, store_order}
use vurn_server.Ratchet.Header.{Header, flag_dh, build_header, parse_header}
use vurn_server.Ratchet.Header.RoundTrip.{parse_header-build_header}
use vurn_server.Ratchet.Decrypt.{is_new_chain, decrypt}
use vurn_server.Ratchet.Replay.{decrypt_forged, decrypt-chain_lost}
use vurn_server.Tests.Toy.{fit, length-fit, toy, toy-CryptoLaws}
use vurn_server.Tests.Sessions.{sender, receiver, sender-InStep, hello, draws, sent, sent_is}

abbrev stranger : Bytes
stranger = fit 32 (8 ∷ [])

-- Message `n` of a chain that starts behind one message.
abbrev forged : ℕ → Bytes
forged n = build_header flag_dh 1 n stranger none none ++ replicate 16 0

abbrev fields : ℕ → Header
fields n = record {
  flags = flag_dh;
  pn = 1;
  n = n;
  dh_pub = stranger;
  kem_pk = none;
  kem_ct = none;
}

parse_header-build_header_example : parse_header (forged 3) ≡ ok (fields 3, replicate 16 0)
parse_header-build_header_example =
    parse_header-build_header flag_dh 1 3 stranger (replicate 16 0) none none refl refl refl
      (omega arith) (omega arith) (length-fit 32 (8 ∷ [])) tt tt (omega arith)

parses : (n : ℕ) → n < 100 → parse_header (forged n) ≡ ok (fields n, replicate 16 0)
parses n h =
    parse_header-build_header flag_dh 1 n stranger (replicate 16 0) none none refl refl refl
      (omega arith) (omega arith) (length-fit 32 (8 ∷ [])) tt tt (omega arith)

stranger_new : stranger ≢ sender.dh_s.0
unfolding fit
stranger_new h = let e : 8 ≡ 1 = ap (λ (b : Bytes). get_or b 0 0) h in absurd (omega (arith, e))

empty : (n : ℕ) → get {V = Bytes} store_order [] (stranger, n) ≡ none
unfolding get
empty n = refl

decrypt_forged_example :
    decrypt toy (sent hello sender) (decrypt toy (forged 0) receiver).1
    ≡ (err out_of_order, (decrypt toy (forged 0) receiver).1)
decrypt_forged_example =
    decrypt_forged toy-CryptoLaws draws hello sender receiver (forged 0) (fields 0) (replicate 16 0)
      sender-InStep (parses 0 (omega arith)) stranger_new refl (empty 0) sent_is refl

new_chain : is_new_chain receiver.dh_r stranger ≡ true
unfolding is_new_chain bytes_eq fit
new_chain = refl

decrypt-chain_lost_example :
    decrypt toy (forged 0) (decrypt toy (forged 1) receiver).1
    ≡ (err out_of_order, (decrypt toy (forged 1) receiver).1)
decrypt-chain_lost_example =
    decrypt-chain_lost toy (forged 1) (forged 0) (fields 1) (fields 0) (replicate 16 0)
      (replicate 16 0) receiver (parses 1 (omega arith)) refl new_chain refl (empty 1)
      (parses 0 (omega arith)) refl refl (empty 0)
