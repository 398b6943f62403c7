-- ===== src/Ratchet/Codec/RoundTrip.antt =====
-- core/src/ratchet.rs: `from_bytes` reads back what `to_bytes` wrote.
use vurn_server.Prelude.{
  ℕ, ◌%◌, ◌≤◌, ◌<◌, ◌≡◌, refl, sym, ap, ◌∙◌, Bool, true, false, not, ◌==◌, le→ltb, Option, none,
  some, List, [], ◌∷◌, ◌++◌, append-nil, append_assoc, arith, length, length-append, take-append,
  drop-append, Result, ok,
}
use vurn_server.Prelude.Bytes.{Bytes, u16_le, u32_le, u16_from_le-u16_le, u32_from_le-u32_le}
use vurn_server.Prelude.SortedMap.{IsAscending, insert-Below}
use vurn_server.Ratchet.{
  Session, AdvertisedKem, StoreKey, store_order, max_skipped_total, session_version, u32_mod,
}
use vurn_server.Ratchet.Codec.{
  CodecError, Reader, read_on, read_bytes, read_u8, read_u16, read_u32, read_some, read_dh_r,
  read_opt_ck, read_framed, read_kem_peer, read_kem_advertised, read_skipped, read_store,
  read_session, read_versioned, session_of, from_bytes, to_bytes, opt_ck_bytes, framed,
  kem_peer_bytes, kem_advertised_bytes, bool_byte, skipped_bytes,
}

-- What a read that succeeds leaves for the next one.
next_on :
    {A B : Type 0} (e : Result CodecError (A × Bytes)) (a : A) (rest : Bytes) (f : A → Reader B)
    {z : Result CodecError (B × Bytes)}
    → e ≡ ok (a, rest)
    → f a rest ≡ z
    → read_on e f ≡ z
unfolding read_on
next_on e a rest f h k = ap (λ r. read_on r f) h ∙ k

next :
    {A B : Type 0} {e : Result CodecError (A × Bytes)} {a : A} {rest : Bytes} (f : A → Reader B)
    {z : Result CodecError (B × Bytes)}
    → e ≡ ok (a, rest)
    → f a rest ≡ z
    → read_on e f ≡ z
next {e = e} {a = a} {rest = rest} f h k = next_on e a rest f h k

bytes_read : (n : ℕ) (b rest : Bytes) → length b ≡ n → read_bytes n (b ++ rest) ≡ ok (b, rest)
unfolding read_bytes
bytes_read n b rest h =
    rw (take-append n b rest h, drop-append n b rest h) (ground (arith, length-append b rest))

u8_read : (n : ℕ) (rest : Bytes) → read_u8 (n ∷ rest) ≡ ok (n, rest)
unfolding read_u8
u8_read n rest = next _ (bytes_read 1 (n ∷ []) rest refl) refl

u16_read : (n : ℕ) (rest : Bytes) → n < 65536 → read_u16 (u16_le n ++ rest) ≡ ok (n, rest)
unfolding read_u16
u16_read n rest h = next _ (bytes_read 2 (u16_le n) rest refl) (rw (u16_from_le-u16_le n h) refl)

u32_read : (n : ℕ) (rest : Bytes) → n < u32_mod → read_u32 (u32_le n ++ rest) ≡ ok (n, rest)
unfolding read_u32
u32_read n rest h = next _ (bytes_read 4 (u32_le n) rest refl) (rw (u32_from_le-u32_le n h) refl)

framed_read : (b rest : Bytes) → length b < 65536 → read_framed (framed b ++ rest) ≡ ok (b, rest)
unfolding read_framed
framed_read b rest h =
    let small : length b % 65536 ≡ length b = omega arith in
    rw small (next _ (u16_read (length b) (b ++ rest) h) (bytes_read (length b) b rest refl))

-- The fields of a session have the lengths and bounds of their types, and the store ascends.
pub record IsKemKey (adv : AdvertisedKem) : Type 0 where
  pub pk_length : length adv.pk < 65536
  pub sk_length : length adv.sk < 65536

abbrev pub All : List AdvertisedKem → Type 0
All [] = Unit
All (adv ∷ advs) = IsKemKey adv × All advs

abbrev pub IsKeyLength : Option Bytes → Type 0
IsKeyLength none = Unit
IsKeyLength (some b) = length b ≡ 32

abbrev pub IsPeerLength : Option Bytes → Type 0
IsPeerLength none = Unit
IsPeerLength (some b) = length b < 65536

abbrev pub AreEntries : List (StoreKey × Bytes) → Type 0
AreEntries [] = Unit
AreEntries (((dh, n), mk) ∷ rest) =
    (length dh ≡ 32) × (n < u32_mod) × (length mk ≡ 32) × AreEntries rest

dh_r_read :
    (o : Option Bytes) (rest : Bytes)
    → IsKeyLength o
    → read_dh_r (opt_ck_bytes o ++ rest) ≡ ok (o, rest)
unfolding read_dh_r read_some
dh_r_read none rest h = next _ (u8_read 0 rest) refl
dh_r_read (some b) rest h = next _ (u8_read 1 (b ++ rest)) (next _ (bytes_read 32 b rest h) refl)

opt_ck_read :
    (o : Option Bytes) (rest : Bytes)
    → IsKeyLength o
    → read_opt_ck (opt_ck_bytes o ++ rest) ≡ ok (o, rest)
unfolding read_opt_ck read_some
opt_ck_read none rest h = next _ (u8_read 0 rest) refl
opt_ck_read (some b) rest h = next _ (u8_read 1 (b ++ rest)) (next _ (bytes_read 32 b rest h) refl)

kem_peer_read :
    (o : Option Bytes) (rest : Bytes)
    → IsPeerLength o
    → read_kem_peer (kem_peer_bytes o ++ rest) ≡ ok (o, rest)
unfolding read_kem_peer read_some
kem_peer_read none rest h = next _ (u8_read 0 rest) refl
kem_peer_read (some b) rest h =
    next _ (u8_read 1 (framed b ++ rest)) (next _ (framed_read b rest h) refl)

kem_advertised_read :
    (advs : List AdvertisedKem) (rest : Bytes)
    → All advs
    → read_kem_advertised (length advs) (kem_advertised_bytes advs ++ rest) ≡ ok (advs, rest)
unfolding read_kem_advertised
kem_advertised_read [] rest h = refl
kem_advertised_read (adv ∷ advs) rest h =
    rw (append_assoc (framed adv.pk) (framed adv.sk ++ kem_advertised_bytes advs) rest) (
      rw (append_assoc (framed adv.sk) (kem_advertised_bytes advs) rest) (
        next _ (framed_read adv.pk _ h.0.pk_length) (
          next _ (framed_read adv.sk _ h.0.sk_length)
            (next _ (kem_advertised_read advs rest h.1) refl))))

skipped_read :
    (done entries : List (StoreKey × Bytes))
    → AreEntries entries
    → IsAscending store_order done entries
    → read_skipped (length entries) done (skipped_bytes entries) ≡ ok (done ++ entries, [])
unfolding read_skipped
skipped_read done [] h a = ap (λ (l : List (StoreKey × Bytes)). ok (l, [])) (sym (append-nil done))
skipped_read done (((dh, n), mk) ∷ entries) h a = next _ (bytes_read 32 dh _ h.0) (
    next _ (u32_read n _ h.1) (
      next _ (bytes_read 32 mk _ h.2) (
        rw (insert-Below store_order done (dh, n) mk a.0) (
          skipped_read (done ++ (((dh, n), mk) ∷ [])) entries h.3 a.1
          ∙ ap (λ (l : List (StoreKey × Bytes)). ok (l, []))
              (append_assoc done (((dh, n), mk) ∷ []) entries)))))

bool_read : (b : Bool) → not (bool_byte b == 0) ≡ b
bool_read true = refl
bool_read false = refl

store_read :
    (entries : List (StoreKey × Bytes))
    → AreEntries entries
    → IsAscending store_order [] entries
    → length entries ≤ max_skipped_total
    → read_store (u32_le (length entries % 4294967296) ++ skipped_bytes entries) ≡ ok (entries, [])
unfolding read_store
store_read entries h a le =
    let small : length entries % 4294967296 ≡ length entries = omega arith in
    rw small (
      next _ (u32_read (length entries) (skipped_bytes entries) (omega arith))
        (rw (le→ltb max_skipped_total (length entries) le) (skipped_read [] entries h a)))

-- What the types and the bounds of the source make true of a session.
pub record IsStorable (s : Session) : Type 0 where
  pub id_length : length s.session_id ≡ 32
  pub rk_length : length s.rk ≡ 32
  pub public_length : length s.dh_s.0 ≡ 32
  pub secret_length : length s.dh_s.1 ≡ 32
  pub dh_r_length : IsKeyLength s.dh_r
  pub ck_s_length : IsKeyLength s.ck_s
  pub ck_r_length : IsKeyLength s.ck_r
  pub n_s_fits : s.n_s < u32_mod
  pub n_r_fits : s.n_r < u32_mod
  pub pn_fits : s.pn < u32_mod
  pub peer_length : IsPeerLength s.kem_peer
  pub advertised : All s.kem_advertised
  pub few_advertised : length s.kem_advertised ≤ 2
  pub entries : AreEntries s.skipped
  pub ascending : IsAscending store_order [] s.skipped
  pub few_entries : length s.skipped ≤ max_skipped_total

versioned_read : (s : Session) → IsStorable s → read_versioned (to_bytes s) ≡ ok (s, [])
unfolding to_bytes read_versioned read_session
versioned_read s i =
    let few : length s.kem_advertised % 256 ≡ length s.kem_advertised =
      omega (arith, i.few_advertised) in
    next _ (u8_read session_version _) (
      next _ (bytes_read 32 s.session_id _ i.id_length) (
        next _ (bytes_read 32 s.rk _ i.rk_length) (
          next _ (bytes_read 32 s.dh_s.0 _ i.public_length) (
            next _ (bytes_read 32 s.dh_s.1 _ i.secret_length) (
              next _ (dh_r_read s.dh_r _ i.dh_r_length) (
                next _ (opt_ck_read s.ck_s _ i.ck_s_length) (
                  next _ (opt_ck_read s.ck_r _ i.ck_r_length) (
                    next _ (u32_read s.n_s _ i.n_s_fits) (
                      next _ (u32_read s.n_r _ i.n_r_fits) (
                        next _ (u32_read s.pn _ i.pn_fits) (
                          next _ (kem_peer_read s.kem_peer _ i.peer_length) (
                            next _ (u8_read (length s.kem_advertised % 256) _) (
                              rw few (
                                next _ (kem_advertised_read s.kem_advertised _ i.advertised) (
                                  next _ (u8_read (bool_byte s.advertise_kem_next) _) (
                                    next _ (u8_read (bool_byte s.initialized) _) (
                                      next _
                                        (store_read s.skipped i.entries i.ascending i.few_entries)
                                        (rw
                                          (bool_read s.advertise_kem_next, bool_read s.initialized)
                                          refl))))))))))))))))))

-- A session whose fields have the lengths and bounds of their types, with at most two advertised
-- keys and an ascending store within its limit, is restored from its bytes as it was.
pub from_bytes-to_bytes : (s : Session) → IsStorable s → from_bytes (to_bytes s) ≡ ok s
unfolding from_bytes
from_bytes-to_bytes s i = ap session_of (versioned_read s i)
