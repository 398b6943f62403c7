-- ===== src/Ratchet/Header/RoundTrip.antt =====
-- `parse_header` reads back what `build_header` wrote, for core/src/ratchet.rs.
use vurn_server.Prelude.{
  ℕ, ◌+◌, ◌≤◌, ◌<◌, ◌≡◌, refl, ap, ◌∙◌, Bool, true, Option, none, some, ◌∷◌, ◌++◌, append_assoc,
  arith, le→ltb, is_some, length, drop, length-append, take-append, drop-append, Result, ok,
}
use vurn_server.Prelude.Bytes.{Bytes, u32_le, u32_from_le-u32_le}
use vurn_server.Ratchet.{DecryptError, kem_pk_len, kem_ct_len, u32_mod}
use vurn_server.Ratchet.Header.{
  Header, has_flag, flag_dh, flag_kem_pk, flag_kem_ct, opt_bytes, build_header, read_field,
  parse_header,
}

-- A present field has the length that its algorithm fixes.
abbrev pub HasLength : ℕ → Option Bytes → Type 0
HasLength n none = Unit
HasLength n (some b) = length b ≡ n

read_field-append :
    (before b rest : Bytes) (pos len : ℕ)
    → length before ≡ pos
    → length b ≡ len
    → read_field true len (before ++ (b ++ rest)) pos ≡ ok (some b, pos + len)
unfolding read_field
read_field-append before b rest pos len p l =
    rw
      (
        le→ltb (length (before ++ (b ++ rest))) (pos + len)
            (omega (arith, length-append before (b ++ rest), length-append b rest)),
        drop-append pos before (b ++ rest) p,
        take-append len b rest l,
      )
      refl

read_field-opt_bytes :
    (o : Option Bytes) (pkg before rest : Bytes) (present : Bool) (pos len : ℕ)
    → pkg ≡ before ++ (opt_bytes o ++ rest)
    → length before ≡ pos
    → present ≡ is_some o
    → HasLength len o
    → read_field present len pkg pos ≡ ok (o, pos + length (opt_bytes o))
read_field-opt_bytes none pkg before rest present pos len e p h l = rw h (
    unfold read_field in
    ap {A = ℕ} {B = Result DecryptError (Option Bytes × ℕ)} (λ k. ok (none, k)) (omega arith))
read_field-opt_bytes (some b) pkg before rest present pos len e p h l =
    rw (h, e, l) (read_field-append before b rest pos len p l)

module _ (flags pn n : ℕ) (dh rest : Bytes) (pk ct : Option Bytes)
    (dh_flag : has_flag flags flag_dh ≡ true) (pk_flag : has_flag flags flag_kem_pk ≡ is_some pk)
    (ct_flag : has_flag flags flag_kem_ct ≡ is_some ct) (pn_fits : pn < u32_mod)
    (n_fits : n < u32_mod) (dh_length : length dh ≡ 32) (pk_length : HasLength kem_pk_len pk)
    (ct_length : HasLength kem_ct_len ct) (tag_fits : 16 ≤ length rest) where
  abbrev written : Header
  written = record { flags = flags; pn = pn; n = n; dh_pub = dh; kem_pk = pk; kem_ct = ct }

  abbrev fixed : Bytes
  fixed = 0x0a ∷ flags ∷ u32_le pn ++ u32_le n

  abbrev body : Bytes
  body = dh ++ (opt_bytes pk ++ (opt_bytes ct ++ rest))

  length-dh : length (fixed ++ dh) ≡ 42
  length-dh = omega arith

  length-pk : length ((fixed ++ dh) ++ opt_bytes pk) ≡ 42 + length (opt_bytes pk)
  length-pk = omega (arith, length-append (fixed ++ dh) (opt_bytes pk))

  length-ct :
      length (((fixed ++ dh) ++ opt_bytes pk) ++ opt_bytes ct)
      ≡ 42 + length (opt_bytes pk) + length (opt_bytes ct)
  length-ct = omega (arith, length-pk, length-append ((fixed ++ dh) ++ opt_bytes pk) (opt_bytes ct))

  regroup : fixed ++ body ≡ (((fixed ++ dh) ++ opt_bytes pk) ++ opt_bytes ct) ++ rest
  regroup = simp append_assoc

  long_enough : 58 ≤ length (fixed ++ body)
  long_enough = omega (
    arith,
    length-append dh (opt_bytes pk ++ (opt_bytes ct ++ rest)),
    length-append (opt_bytes pk) (opt_bytes ct ++ rest),
    length-append (opt_bytes ct) rest,
  )

  read_pk :
      read_field (has_flag flags flag_kem_pk) kem_pk_len (fixed ++ body) 42
      ≡ ok (pk, 42 + length (opt_bytes pk))
  read_pk =
      read_field-opt_bytes pk _ (fixed ++ dh) (opt_bytes ct ++ rest) _ 42 kem_pk_len
        (simp append_assoc) length-dh pk_flag pk_length

  read_ct :
      read_field
        (has_flag flags flag_kem_ct)
        kem_ct_len
        (fixed ++ body)
        (42 + length (opt_bytes pk))
      ≡ ok (ct, 42 + length (opt_bytes pk) + length (opt_bytes ct))
  read_ct =
      read_field-opt_bytes ct _ ((fixed ++ dh) ++ opt_bytes pk) rest _ (42 + length (opt_bytes pk))
        kem_ct_len (simp append_assoc) length-pk ct_flag ct_length

  drop_all : drop (42 + length (opt_bytes pk) + length (opt_bytes ct)) (fixed ++ body) ≡ rest
  drop_all =
      ap (drop (42 + length (opt_bytes pk) + length (opt_bytes ct))) regroup
      ∙ drop-append (42 + length (opt_bytes pk) + length (opt_bytes ct))
          (((fixed ++ dh) ++ opt_bytes pk) ++ opt_bytes ct) rest length-ct

  parse_fixed : parse_header (fixed ++ body) ≡ ok (written, rest)
  unfolding parse_header
  parse_fixed = rw (
    le→ltb (length (fixed ++ body)) 58 long_enough,
    dh_flag,
    read_pk,
    read_ct,
    drop_all,
    take-append 32 dh (opt_bytes pk ++ (opt_bytes ct ++ rest)) dh_length,
    u32_from_le-u32_le pn pn_fits,
    u32_from_le-u32_le n n_fits,
  )

  -- Whatever build_header writes of fields that fit, with flags that say which are present and a
  -- ciphertext of at least the tag's length behind it, parse_header splits into the same fields
  -- and the same ciphertext.
  pub parse_header-build_header :
      parse_header (build_header flags pn n dh pk ct ++ rest) ≡ ok (written, rest)
  parse_header-build_header = unfold build_header in simp append_assoc parse_fixed
