-- ===== src/Ratchet/Sent.antt =====
-- The parts of a package that `Session::encrypt` of core/src/ratchet.rs returned.
use vurn_server.Prelude.{
  ◌+◌, ◌%◌, ◌≡◌, Option, none, some, ◌++◌, arith, if◌then◌else◌, is_some, ok, Option-cases,
  Result-cases, inl, inr,
}
use vurn_server.Prelude.Bytes.{Bytes}
use vurn_server.Crypto.{Crypto}
use vurn_server.Ratchet.{Session, u32_mod}
use vurn_server.Ratchet.Kdf.{chain_step, mix_kem, aead_encrypt}
use vurn_server.Ratchet.Header.{build_header}
use vurn_server.Ratchet.Encrypt.{
  Draws, Encapsulated, send_flags, encapsulate_to, seal_package, encrypt_open,
}

module _ (c : Crypto) (d : Draws) (pt : Bytes) where
  -- The ML-KEM key that the next package advertises, if one is due.
  abbrev pub advertised : Session → Option Bytes
  advertised a = if a.advertise_kem_next then some (c.kem_generate d.kem_seed).0 else none

  abbrev pub sent_header : Session → Encapsulated → Bytes
  sent_header a kem =
      build_header (send_flags (is_some (advertised a)) (is_some kem.ct)) a.pn a.n_s a.dh_s.0
        (advertised a) kem.ct

  pub record IsSent (a : Session) (pkg : Bytes) (a' : Session) : Type 0 where
    pub ck : Bytes
    pub kem : Encapsulated
    pub body : Bytes
    pub chain : a.ck_s ≡ some ck
    pub made : encapsulate_to c d.coins a.kem_peer ≡ ok kem
    pub sealed :
        aead_encrypt c a.session_id (sent_header a kem) (mix_kem c (chain_step c ck).0 kem.ss) pt
        ≡ ok body
    pub package_is : pkg ≡ sent_header a kem ++ body
    pub next_chain : a'.ck_s ≡ some (chain_step c ck).1
    pub next_number : a'.n_s ≡ (a.n_s + 1) % u32_mod
    pub same_key : a'.dh_s ≡ a.dh_s
    pub same_id : a'.session_id ≡ a.session_id
    pub same_root : a'.rk ≡ a.rk
    pub same_pn : a'.pn ≡ a.pn
    pub same_peer : a'.kem_peer ≡ a.kem_peer

  module _ (a : Session) {pkg : Bytes} {a' : Session}
      (h : encrypt_open c d pt a ≡ (ok pkg, a')) where
    has_chain : (ck : Bytes) × (a.ck_s ≡ some ck)
    unfolding encrypt_open
    has_chain = elim (Option-cases a.ck_s) [ inl e ↦ absurd (ground arith) | inr found ↦ found ]

    has_kem : (kem : Encapsulated) × (encapsulate_to c d.coins a.kem_peer ≡ ok kem)
    unfolding encrypt_open
    has_kem = elim (Result-cases (encapsulate_to c d.coins a.kem_peer)) [
      | inl found ↦ found
      | inr (e, bad) ↦ let (ck, chain) = has_chain in absurd (ground (arith, chain, bad))
    ]

    sealed_package :
        (ck : Bytes) (kem : Encapsulated)
        → a.ck_s ≡ some ck
        → encapsulate_to c d.coins a.kem_peer ≡ ok kem
        → (seal_package c a.session_id a.dh_s.0 a.pn a.n_s (chain_step c ck).0 (advertised a) kem pt
            ≡ ok pkg)
          × (a'.ck_s ≡ some (chain_step c ck).1)
          × (a'.n_s ≡ (a.n_s + 1) % u32_mod)
    unfolding encrypt_open
    sealed_package ck kem chain made = ground arith

    keeps :
        (a'.dh_s ≡ a.dh_s)
        × (a'.session_id ≡ a.session_id)
        × (a'.rk ≡ a.rk)
        × (a'.pn ≡ a.pn)
        × (a'.kem_peer ≡ a.kem_peer)
    unfolding encrypt_open
    keeps = let (ck, chain) = has_chain in let (kem, made) = has_kem in ground arith

  seal_package-ok :
      (a : Session) (mk : Bytes) (kem : Encapsulated) {pkg : Bytes}
      → seal_package c a.session_id a.dh_s.0 a.pn a.n_s mk (advertised a) kem pt ≡ ok pkg
      → (body : Bytes) × (aead_encrypt c a.session_id (sent_header a kem) (mix_kem c mk kem.ss) pt
          ≡ ok body)
        × (pkg ≡ sent_header a kem ++ body)
  unfolding seal_package
  seal_package-ok a mk kem h =
      elim (Result-cases
        (aead_encrypt c a.session_id (sent_header a kem) (mix_kem c mk kem.ss) pt)) [
          | inl (body, e) ↦ (body, e, ground (arith, e))
          | inr (e, bad) ↦ absurd (ground (arith, bad))
        ]

  pub encrypt_open-IsSent :
      (a : Session) {pkg : Bytes} {a' : Session}
      → encrypt_open c d pt a ≡ (ok pkg, a')
      → IsSent a pkg a'
  encrypt_open-IsSent a h =
      let (ck, chain) = has_chain a h in
      let (kem, made) = has_kem a h in
      let kept = keeps a h in
      let (whole, next_chain, next_number) = sealed_package a h ck kem chain made in
      let (body, sealed, package_is) = seal_package-ok a (chain_step c ck).0 kem whole in
      record {
        ck = ck;
        kem = kem;
        body = body;
        chain = chain;
        made = made;
        sealed = sealed;
        package_is = package_is;
        next_chain = next_chain;
        next_number = next_number;
        same_key = kept.0;
        same_id = kept.1;
        same_root = kept.2;
        same_pn = kept.3;
        same_peer = kept.4;
      }
