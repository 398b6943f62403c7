-- ===== src/Ratchet/Bounds.antt =====
-- The memory bounds of a session of core/src/ratchet.rs, whatever packages arrive.
use vurn_server.Prelude.{
  ℕ, zero, suc, ◌+◌, ◌-◌, ◌≤◌, ◌≡◌, refl, arith, length, Option-cases, Result-cases, inl, inr,
}
use vurn_server.Prelude.Bytes.{Bytes}
use vurn_server.Prelude.SortedMap.{get, insert, length-insert-le, length-remove-le}
use vurn_server.Crypto.{Crypto}
use vurn_server.Ratchet.{Session, store_order, max_skipped_total}
use vurn_server.Ratchet.Header.{Header, parse_header}
use vurn_server.Ratchet.Kdf.{chain_step}
use vurn_server.Ratchet.Chains.{skip_loop, skip_to, ratchet, open_send_chain}
use vurn_server.Ratchet.Encrypt.{Draws, encrypt_open, encrypt}
use vurn_server.Ratchet.Decrypt.{
  open_stored, initialize, align, arrive, next_receive_key, adopt_kem, receive, decrypt_parsed,
  decrypt, header_bytes,
}

-- The store and the list of advertised keys stay within their limits.
pub record IsBounded (s : Session) : Type 0 where
  pub store : length s.skipped ≤ max_skipped_total
  pub advertised : length s.kem_advertised ≤ 2

module _ (c : Crypto) where
  length-skip_loop :
      (k : ℕ) (dh ck : Bytes) (s : Session)
      → (length (skip_loop c k dh ck s).skipped ≤ length s.skipped + k)
        × ((skip_loop c k dh ck s).kem_advertised ≡ s.kem_advertised)
  unfolding skip_loop
  length-skip_loop zero dh ck s = (omega arith, refl)
  length-skip_loop (suc k) dh ck s =
      let (mk, next) = chain_step c ck in
      let t = record s { skipped = insert store_order s.skipped (dh, s.n_r) mk; n_r = s.n_r + 1 } in
      let (short, kept) = length-skip_loop k dh next t in
      (omega (arith, short, length-insert-le store_order s.skipped (dh, s.n_r) mk), kept)

  skip_to-IsBounded : (until : ℕ) (s : Session) → IsBounded s → IsBounded (skip_to c until s).1
  unfolding skip_to
  skip_to-IsBounded until s b = elim (Option-cases s.dh_r) [
    | inl e ↦ ground arith
    | inr (dh, e) ↦ elim (Option-cases s.ck_r) [
      | inl f ↦ ground arith
      | inr (ck, f) ↦ ground (arith, e, f, length-skip_loop (until - s.n_r) dh ck s)
    ]
  ]

  initialize-IsBounded : (dh : Bytes) (s : Session) → IsBounded s → IsBounded (initialize c dh s).1
  unfolding initialize
  initialize-IsBounded dh s b = ground arith

  align-IsBounded : (h : Header) (s : Session) → IsBounded s → IsBounded (align c h s).1
  unfolding align ratchet
  align-IsBounded h s b = ground (arith, skip_to-IsBounded h.pn s b, skip_to-IsBounded h.n s b)

  arrive-IsBounded : (h : Header) (s : Session) → IsBounded s → IsBounded (arrive c h s).1
  unfolding arrive
  arrive-IsBounded h s b =
      let first = initialize-IsBounded h.dh_pub s b in
      ground (arith, first, align-IsBounded h (initialize c h.dh_pub s).1 first)

  receive-IsBounded :
      (h : Header) (header ct : Bytes) (s : Session)
      → IsBounded s
      → IsBounded (receive c h header ct s).1
  unfolding receive next_receive_key adopt_kem
  receive-IsBounded h header ct s b = ground (arith, arrive-IsBounded h s b)

  open_stored-IsBounded :
      (h : Header) (header ct mk : Bytes) (s : Session)
      → IsBounded s
      → IsBounded (open_stored c h header ct mk s).1
  unfolding open_stored
  open_stored-IsBounded h header ct mk s b =
      ground (arith, length-remove-le store_order s.skipped (h.dh_pub, h.n))

  decrypt_parsed-IsBounded :
      (pkg : Bytes) (h : Header) (ct : Bytes) (s : Session)
      → IsBounded s
      → IsBounded (decrypt_parsed c pkg h ct s).1
  unfolding decrypt_parsed
  decrypt_parsed-IsBounded pkg h ct s b =
      elim (Option-cases (get store_order s.skipped (h.dh_pub, h.n))) [
        | inl e ↦ rw (e, decrypt_parsed) (receive-IsBounded h (header_bytes pkg ct) ct s b)
        | inr (mk, e) ↦
            rw (e, decrypt_parsed) (open_stored-IsBounded h (header_bytes pkg ct) ct mk s b)
      ]

  -- Whatever bytes arrive and whether or not they decrypt, the store of skipped keys stays within
  -- 2000 entries and the list of advertised keys within 2.
  pub decrypt-IsBounded : (pkg : Bytes) (s : Session) → IsBounded s → IsBounded (decrypt c pkg s).1
  unfolding decrypt
  decrypt-IsBounded pkg s b = elim (Result-cases (parse_header pkg)) [
    | inl ((h, ct), e) ↦ rw (e, decrypt) (decrypt_parsed-IsBounded pkg h ct s b)
    | inr (e, bad) ↦ rw (bad, decrypt) b
  ]

  -- Sending, whether or not it succeeds, keeps the store of skipped keys within 2000 entries and
  -- the list of advertised keys within 2.
  pub encrypt-IsBounded :
      (d : Draws) (pt : Bytes) (s : Session) → IsBounded s → IsBounded (encrypt c d pt s).1
  unfolding encrypt encrypt_open open_send_chain
  encrypt-IsBounded d pt s b = ground arith
