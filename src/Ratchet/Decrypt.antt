-- ===== src/Ratchet/Decrypt.antt =====
-- core/src/ratchet.rs: `Session::decrypt`. `n_r += 1` wraps, as it does in a release build.
use vurn_server.Prelude.{
  ◌+◌, ◌-◌, ◌%◌, Bool, true, not, Option, none, some, List, [], ◌∷◌, ltb, if◌then◌else◌, length,
  take, Result, ok, err,
}
use vurn_server.Prelude.Bytes.{Bytes, bytes_eq}
use vurn_server.Prelude.SortedMap.{get, remove}
use vurn_server.Crypto.{Crypto}
use vurn_server.Ratchet.{
  DecryptError, out_of_order, no_state, auth_failed, AdvertisedKem, Session, store_order, u32_mod,
}
use vurn_server.Ratchet.Kdf.{chain_step, mix_kem, kem_decapsulate, aead_decrypt}
use vurn_server.Ratchet.Header.{Header, parse_header}
use vurn_server.Ratchet.Step.{Step, ◌>>=◌, ◌>>◌}
use vurn_server.Ratchet.Chains.{derive_initial_receive_chain, skip_to, ratchet}

abbrev pub or_no_kem : List (Option Bytes) → List (Option Bytes)
or_no_kem [] = none ∷ []
or_no_kem (ss ∷ sss) = ss ∷ sss

-- `self.dh_r.map_or(true, |cur| cur != dh_pub)`
unfoldable pub is_new_chain : Option Bytes → Bytes → Bool
unfolding bytes_eq
is_new_chain none dh_pub = true
is_new_chain (some cur) dh_pub = not (bytes_eq cur dh_pub)

unfoldable pub adopt_kem : Option Bytes → Session → Session
adopt_kem kem_pk s = record s { kem_peer = elim kem_pk [ some pk ↦ some pk | none ↦ s.kem_peer ] }

-- `&package[..package.len() - ct.len()]`
abbrev pub header_bytes : Bytes → Bytes → Bytes
header_bytes pkg ct = take (length pkg - length ct) pkg

module _ (c : Crypto) where
  -- The secrets that our advertised keys give for a ciphertext, newest first.
  unfoldable pub decapsulations : List AdvertisedKem → Bytes → List (Option Bytes)
  unfolding kem_decapsulate
  decapsulations [] kem_ct = []
  decapsulations (adv ∷ advs) kem_ct =
      let rest = decapsulations advs kem_ct in
      elim (kem_decapsulate c adv.sk kem_ct) [ ok ss ↦ some ss ∷ rest | err e ↦ rest ]

  unfoldable pub candidates : List AdvertisedKem → Option Bytes → List (Option Bytes)
  candidates advs none = none ∷ []
  candidates advs (some kem_ct) = or_no_kem (decapsulations advs kem_ct)

  unfoldable pub try_open :
      List (Option Bytes) → Bytes → Bytes → Bytes → Bytes → Result DecryptError Bytes
  unfolding mix_kem aead_decrypt
  try_open [] session_id header mk ct = err auth_failed
  try_open (ss ∷ sss) session_id header mk ct =
      elim (aead_decrypt c session_id header (mix_kem c mk ss) ct) [
        | ok pt ↦ ok pt
        | err e ↦ try_open sss session_id header mk ct
      ]

  unfoldable pub open_aead :
      Session → Bytes → Bytes → Option Bytes → Bytes → Result DecryptError Bytes
  open_aead s header ct kem_ct mk =
      try_open (candidates s.kem_advertised kem_ct) s.session_id header mk ct

  -- A message whose key is in the store.
  unfoldable pub open_stored : Header → Bytes → Bytes → Bytes → Step Bytes
  open_stored h header ct mk s = elim (open_aead s header ct h.kem_ct mk) [
    | ok pt ↦ (ok pt, record s { skipped = remove store_order s.skipped (h.dh_pub, h.n) })
    | err e ↦ (err e, s)
  ]

  -- Brings the receiving chain to the message's number.
  unfoldable pub align : Header → Step (Unit {0})
  align h s =
      if is_new_chain s.dh_r h.dh_pub
      then (if ltb h.pn s.n_r
          then (err out_of_order, s)
          else (do skip_to c h.pn; ratchet c h.dh_pub) s)
      else if ltb s.n_r h.n
      then skip_to c h.n s
      else if ltb h.n s.n_r
      then (err out_of_order, s)
      else (ok tt, s)

  unfoldable pub initialize : Bytes → Step (Unit {0})
  unfolding derive_initial_receive_chain
  initialize dh_pub s =
      if not s.initialized then derive_initial_receive_chain c dh_pub s else (ok tt, s)

  unfoldable pub next_receive_key : Step Bytes
  unfolding chain_step
  next_receive_key s = elim s.ck_r [
    | none ↦ (err no_state, s)
    | some ck ↦
        let (mk, next) = chain_step c ck in
        (ok mk, record s { ck_r = some next; n_r = (s.n_r + 1) % u32_mod })
  ]

  unfoldable pub arrive : Header → Step (Unit {0})
  arrive h = do initialize h.dh_pub; align h

  -- A message of a receiving chain.
  unfoldable pub receive : Header → Bytes → Bytes → Step Bytes
  receive h header ct = do
    arrive h
    mk ← next_receive_key
    pt ← λ s. (open_aead s header ct h.kem_ct mk, s)
    λ s. (ok pt, adopt_kem h.kem_pk s)

  unfoldable pub decrypt_parsed : Bytes → Header → Bytes → Step Bytes
  decrypt_parsed pkg h ct s = elim (get store_order s.skipped (h.dh_pub, h.n)) [
    | some mk ↦ open_stored h (header_bytes pkg ct) ct mk s
    | none ↦ receive h (header_bytes pkg ct) ct s
  ]

  unfoldable pub decrypt : Bytes → Step Bytes
  decrypt pkg s = elim (parse_header pkg) [
    | err e ↦ (err e, s)
    | ok (h, ct) ↦ decrypt_parsed pkg h ct s
  ]
