-- ===== src/Bootstrap/Envelope.antt =====
-- core/src/bootstrap.rs: an init envelope that was built is parsed.
use vurn_server.Prelude.{
  ◌%◌, ◌<◌, ◌≡◌, refl, ◌∙◌, ◌++◌, arith, length, length-append, take-append, drop-append, ok,
}
use vurn_server.Prelude.Bytes.{Bytes, u16_le, u16_from_le-u16_le}
use vurn_server.Ratchet.{kem_ct_len}
use vurn_server.Identity.{IdentityBundle, encode, decode}
use vurn_server.Identity.RoundTrip.{IsComplete, decode-encode, length_fields}
use vurn_server.Bootstrap.{build_init_envelope, parse_rest, parse_init_envelope}

parse_rest_framed :
    (bundle : IdentityBundle) (ct_spk ct_ik pkg : Bytes)
    → length ct_spk ≡ kem_ct_len
    → length ct_ik ≡ kem_ct_len
    → 0 < length pkg
    → parse_rest bundle (ct_spk ++ (ct_ik ++ pkg))
      ≡ ok (record { bundle = bundle; ct_spk = ct_spk; ct_ik = ct_ik; pkg = pkg })
unfolding parse_rest
parse_rest_framed bundle ct_spk ct_ik pkg h k l =
    rw
      (
        take-append kem_ct_len ct_spk (ct_ik ++ pkg) h,
        drop-append kem_ct_len ct_spk (ct_ik ++ pkg) h,
        take-append kem_ct_len ct_ik pkg k,
        drop-append kem_ct_len ct_ik pkg k,
      )
      (ground (arith, length-append ct_spk (ct_ik ++ pkg), length-append ct_ik pkg))

parse_framed :
    (enc rest : Bytes) (bundle : IdentityBundle)
    → length enc < 65536
    → decode enc ≡ ok bundle
    → parse_init_envelope (u16_le (length enc) ++ (enc ++ rest)) ≡ parse_rest bundle rest
unfolding parse_init_envelope
parse_framed enc rest bundle h k =
    rw
      (
        u16_from_le-u16_le (length enc) h,
        take-append (length enc) enc rest refl,
        drop-append (length enc) enc rest refl,
        k,
      )
      (ground (arith, length-append enc rest))

-- An init envelope of a complete bundle, two ML-KEM ciphertexts and a package that is not empty
-- parses to those parts.
pub parse_init_envelope-build_init_envelope :
    (bundle : IdentityBundle) (ct_spk ct_ik pkg : Bytes)
    → IsComplete bundle
    → length ct_spk ≡ kem_ct_len
    → length ct_ik ≡ kem_ct_len
    → 0 < length pkg
    → parse_init_envelope (build_init_envelope bundle ct_spk ct_ik pkg)
      ≡ ok (record { bundle = bundle; ct_spk = ct_spk; ct_ik = ct_ik; pkg = pkg })
unfolding build_init_envelope
parse_init_envelope-build_init_envelope bundle ct_spk ct_ik pkg i h k l =
    let long = length_fields bundle i in
    let small : length (encode bundle) % 65536 ≡ length (encode bundle) = omega (arith, long) in
    rw small (
      parse_framed (encode bundle) (ct_spk ++ (ct_ik ++ pkg)) bundle (omega (arith, long))
        (decode-encode bundle i)
      ∙ parse_rest_framed bundle ct_spk ct_ik pkg h k l)
