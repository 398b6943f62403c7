-- ===== src/Ratchet/Codec.antt =====
-- core/src/ratchet.rs: `Session::to_bytes` and `Session::from_bytes`. A reader takes bytes off the
-- front, which is what the source does with its position.
pub mod RoundTrip
use vurn_server.Prelude.{
  ℕ, zero, suc, ◌%◌, Bool, true, false, not, ◌&&◌, Option, none, some, List, [], ◌∷◌, ◌++◌, ltb,
  ◌==◌, if◌then◌else◌, length, take, drop, get_or, Result, ok, err,
}
use vurn_server.Prelude.Bytes.{Bytes, u16_le, u16_from_le, u32_le, u32_from_le}
use vurn_server.Prelude.SortedMap.{insert}
use vurn_server.Ratchet.{
  Session, AdvertisedKem, StoreKey, store_order, session_version, pkg_version, max_skipped_total,
}

pub data CodecError : Type 0 where
  truncated unsupported_version count_out_of_bounds : CodecError

abbrev pub Reader : Type 0 → Type 0
Reader A = Bytes → Result CodecError (A × Bytes)

unfoldable pub read_on :
    {A B : Type 0} → Result CodecError (A × Bytes) → (A → Reader B) → Result CodecError (B × Bytes)
read_on (ok (a, rest)) f = f a rest
read_on (err e) f = err e

infixl 5 ◌>>=◌
abbrev pub ◌>>=◌ : {A B : Type 0} → Reader A → (A → Reader B) → Reader B
◌>>=◌ r f bytes = read_on (r bytes) f

abbrev pub pure : {A : Type 0} → A → Reader A
pure a bytes = ok (a, bytes)

-- `take(n)?`
unfoldable pub read_bytes : ℕ → Reader Bytes
read_bytes n bytes = if ltb (length bytes) n then err truncated else ok (take n bytes, drop n bytes)

unfoldable pub read_u8 : Reader ℕ
read_u8 = do b ← read_bytes 1; pure (get_or b 0 0)

unfoldable pub read_u16 : Reader ℕ
read_u16 = do b ← read_bytes 2; pure (u16_from_le b)

unfoldable pub read_u32 : Reader ℕ
read_u32 = do b ← read_bytes 4; pure (u32_from_le b)

unfoldable pub read_some : {A : Type 0} → Bool → Reader A → Reader (Option A)
read_some true r = do a ← r; pure (some a)
read_some false r = pure none

-- `dh_r` is there for the mark 1, a chain key for any mark but 0.
unfoldable pub read_dh_r : Reader (Option Bytes)
read_dh_r = do mark ← read_u8; read_some (mark == 1) (read_bytes 32)

unfoldable pub read_opt_ck : Reader (Option Bytes)
read_opt_ck = do mark ← read_u8; read_some (not (mark == 0)) (read_bytes 32)

unfoldable pub read_framed : Reader Bytes
read_framed = do len ← read_u16; read_bytes len

unfoldable pub read_kem_peer : Reader (Option Bytes)
read_kem_peer = do mark ← read_u8; read_some (mark == 1) read_framed

unfoldable pub read_kem_advertised : ℕ → Reader (List AdvertisedKem)
read_kem_advertised zero = pure []
read_kem_advertised (suc n) = do
  pk ← read_framed
  sk ← read_framed
  rest ← read_kem_advertised n
  pure (record { pk = pk; sk = sk } ∷ rest)

unfoldable pub read_skipped : ℕ → List (StoreKey × Bytes) → Reader (List (StoreKey × Bytes))
read_skipped zero skipped = pure skipped
read_skipped (suc count) skipped = do
  dh ← read_bytes 32
  n ← read_u32
  mk ← read_bytes 32
  read_skipped count (insert store_order skipped (dh, n) mk)

-- The store of a session in the current format.
unfoldable pub read_store : Reader (List (StoreKey × Bytes))
read_store = do
  n_skip ← read_u32
  if ltb max_skipped_total n_skip
      then (λ bytes. err count_out_of_bounds)
      else read_skipped n_skip []

-- The fields behind the version.
unfoldable pub read_session : ℕ → Reader Session
read_session ver = do
  session_id ← read_bytes 32
  rk ← read_bytes 32
  dh_pub ← read_bytes 32
  dh_secret ← read_bytes 32
  dh_r ← read_dh_r
  ck_s ← read_opt_ck
  ck_r ← read_opt_ck
  n_s ← read_u32
  n_r ← read_u32
  pn ← read_u32
  kem_peer ← read_kem_peer
  n_kem ← read_u8
  kem_advertised ← read_kem_advertised n_kem
  advertise_kem_next ← read_u8
  initialized ← read_u8
  skipped ← if ver == session_version then read_store else pure []
  pure (record {
    session_id = session_id;
    rk = rk;
    dh_s = (dh_pub, dh_secret);
    dh_r = dh_r;
    ck_s = ck_s;
    ck_r = ck_r;
    n_s = n_s;
    n_r = n_r;
    pn = pn;
    kem_advertised = kem_advertised;
    kem_peer = kem_peer;
    advertise_kem_next = not (advertise_kem_next == 0);
    skipped = skipped;
    initialized = not (initialized == 0);
  })

abbrev pub session_of : Result CodecError (Session × Bytes) → Result CodecError Session
session_of (ok (s, rest)) = ok s
session_of (err e) = err e

unfoldable pub read_versioned : Reader Session
read_versioned = do
  ver ← read_u8
  if not (ver == session_version) && not (ver == pkg_version)
      then (λ bytes. err unsupported_version)
      else read_session ver

unfoldable pub from_bytes : Bytes → Result CodecError Session
from_bytes bytes = session_of (read_versioned bytes)

abbrev pub opt_ck_bytes : Option Bytes → Bytes
opt_ck_bytes none = 0 ∷ []
opt_ck_bytes (some v) = 1 ∷ v

abbrev pub framed : Bytes → Bytes
framed b = u16_le (length b % 65536) ++ b

abbrev pub kem_peer_bytes : Option Bytes → Bytes
kem_peer_bytes none = 0 ∷ []
kem_peer_bytes (some v) = 1 ∷ framed v

abbrev pub kem_advertised_bytes : List AdvertisedKem → Bytes
kem_advertised_bytes [] = []
kem_advertised_bytes (adv ∷ advs) = framed adv.pk ++ (framed adv.sk ++ kem_advertised_bytes advs)

abbrev pub bool_byte : Bool → ℕ
bool_byte true = 1
bool_byte false = 0

abbrev pub skipped_bytes : List (StoreKey × Bytes) → Bytes
skipped_bytes [] = []
skipped_bytes (((dh, n), mk) ∷ rest) = dh ++ (u32_le n ++ (mk ++ skipped_bytes rest))

unfoldable pub to_bytes : Session → Bytes
to_bytes s =
    session_version
    ∷ (s.session_id
        ++ (s.rk
            ++ (s.dh_s.0
                ++ (s.dh_s.1
                    ++ (opt_ck_bytes s.dh_r
                        ++ (opt_ck_bytes s.ck_s
                            ++ (opt_ck_bytes s.ck_r
                                ++ (u32_le s.n_s
                                    ++ (u32_le s.n_r
                                        ++ (u32_le s.pn
                                            ++ (kem_peer_bytes s.kem_peer
                                                ++ ((length s.kem_advertised % 256)
                                                    ∷ (kem_advertised_bytes s.kem_advertised
                                                        ++ (bool_byte s.advertise_kem_next
                                                            ∷ bool_byte s.initialized
                                                            ∷ (u32_le
                                                            (length s.skipped % 4294967296)
                                                            ++ skipped_bytes
                                                            s.skipped)))))))))))))))
