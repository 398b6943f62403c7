-- ===== src/Ratchet/Header.antt =====
-- core/src/ratchet.rs: the package header, `build_header` and `parse_header`.
pub mod RoundTrip
use Prim.Native.Nat.{bit_and}
use vurn_server.Prelude.{
  ℕ, ◌+◌, ◌-◌, Bool, not, Option, none, some, List, [], ◌∷◌, ◌++◌, ◌==◌, ltb, if◌then◌else◌, length,
  get_or, take, drop, Result, ok, err, ◌>>=◌, to_option,
}
use mathlib.Core.Option
use vurn_server.Prelude.Bytes.{Bytes, u32_le, u32_from_le}
use vurn_server.Ratchet.{DecryptError, malformed, kem_pk_len, kem_ct_len, pkg_version}

abbrev pub flag_dh : ℕ
flag_dh = 0x01

abbrev pub flag_kem_pk : ℕ
flag_kem_pk = 0x02

abbrev pub flag_kem_ct : ℕ
flag_kem_ct = 0x04

-- `flags & flag != 0`
abbrev pub has_flag : ℕ → ℕ → Bool
has_flag flags flag = not (bit_and flags flag == 0)

-- `if let Some(b) = o { h.extend_from_slice(b) }`
abbrev pub opt_bytes : Option Bytes → Bytes
opt_bytes none = []
opt_bytes (some b) = b

pub record Header : Type 0 where
  pub flags : ℕ
  pub pn : ℕ
  pub n : ℕ
  pub dh_pub : Bytes
  pub kem_pk : Option Bytes
  pub kem_ct : Option Bytes

unfoldable pub build_header : ℕ → ℕ → ℕ → Bytes → Option Bytes → Option Bytes → Bytes
build_header flags pn n dh_pub kem_pk kem_ct =
    (pkg_version ∷ flags ∷ u32_le pn ++ u32_le n)
    ++ (dh_pub ++ (opt_bytes kem_pk ++ opt_bytes kem_ct))

-- `pkg[a..a + len]`
abbrev pub slice : ℕ → ℕ → Bytes → Bytes
slice a len pkg = take len (drop a pkg)

-- One optional field at `pos`: its value and the position behind it.
unfoldable pub read_field : Bool → ℕ → Bytes → ℕ → Result DecryptError (Option Bytes × ℕ)
read_field present len pkg pos =
    if present
    then (if ltb (length pkg) (pos + len)
        then err malformed
        else ok (some (slice pos len pkg), pos + len))
    else ok (none, pos)

-- The fields of the header, and the AEAD ciphertext behind it.
unfoldable pub parse_header : Bytes → Result DecryptError (Header × Bytes)
parse_header pkg =
    if ltb (length pkg) (42 + 16)
    then err malformed
    else if not (get_or pkg 0 0 == pkg_version)
    then err malformed
    else let flags = get_or pkg 1 0 in
      if not (has_flag flags flag_dh) then err malformed else do
        (kem_pk, pos) ← read_field (has_flag flags flag_kem_pk) kem_pk_len pkg 42
        (kem_ct, end) ← read_field (has_flag flags flag_kem_ct) kem_ct_len pkg pos
        ok (
          record {
            flags = flags;
            pn = u32_from_le (slice 2 4 pkg);
            n = u32_from_le (slice 6 4 pkg);
            dh_pub = slice 10 32 pkg;
            kem_pk = kem_pk;
            kem_ct = kem_ct;
          },
          drop end pkg,
        )

unfoldable pub package_sender_key : Bytes → Option Bytes
unfolding parse_header
package_sender_key pkg =
    Option.map (λ (p : Header × Bytes). p.0.dh_pub) (to_option (parse_header pkg))
