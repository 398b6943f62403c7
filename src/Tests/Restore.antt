-- ===== src/Tests/Restore.antt =====
-- A session of core/src/ratchet.rs that is stored and restored.
use vurn_server.Prelude.{◌≡◌, some, [], ◌∷◌, arith, ok}
use vurn_server.Ratchet.{Session}
use vurn_server.Ratchet.Codec.{from_bytes, to_bytes}
use vurn_server.Ratchet.Codec.RoundTrip.{IsStorable, from_bytes-to_bytes}
use vurn_server.Tests.Toy.{fit, length-fit}
use vurn_server.Tests.Sessions.{sender}

abbrev session : Session
session = record sender {
  session_id = fit 32 [];
  rk = fit 32 (9 ∷ []);
  dh_s = (fit 32 (1 ∷ []), fit 32 (1 ∷ []));
  ck_s = some (fit 32 (5 ∷ []));
  skipped = ((fit 32 (2 ∷ []), 4), fit 32 (6 ∷ [])) ∷ [];
}

session-IsStorable : IsStorable session
session-IsStorable = record {
  id_length = length-fit 32 [];
  rk_length = length-fit 32 (9 ∷ []);
  public_length = length-fit 32 (1 ∷ []);
  secret_length = length-fit 32 (1 ∷ []);
  dh_r_length = length-fit 32 (2 ∷ []);
  ck_s_length = length-fit 32 (5 ∷ []);
  ck_r_length = tt;
  n_s_fits = omega arith;
  n_r_fits = omega arith;
  pn_fits = omega arith;
  peer_length = tt;
  advertised = tt;
  few_advertised = omega arith;
  entries = (length-fit 32 (2 ∷ []), omega arith, length-fit 32 (6 ∷ []), tt);
  ascending = (tt, tt);
  few_entries = omega arith;
}

from_bytes-to_bytes_example : from_bytes (to_bytes session) ≡ ok session
from_bytes-to_bytes_example = from_bytes-to_bytes session session-IsStorable
