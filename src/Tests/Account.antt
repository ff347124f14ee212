-- ===== src/Tests/Account.antt =====
-- Bundles of one account: rust/src/api/account_envelope/codec.rs.
use openmls_dart.Prelude.{
  ◌≡◌, refl, none, some, [], ◌∷◌, ◌++◌, All, IsByte, Bytes, replicate, to_be_bytes, from_be_bytes,
  ok, arith,
}
use openmls_dart.Account.Types.{
  DecodedPrivateBundleV1, active_full, rotation, validate_authority, is_canonical_uuid, state_as_u8,
  state_from_u8, activation_value, activation_from_u8, reset_reason_new, reset_reason_value,
}
use openmls_dart.Account.Cursor.{
  read_u8, read_u16, read_u64, read_array, read_suite, read_optional, is_finished,
}
use openmls_dart.Account.PrivateBundle.{
  encode_private_bundle, read_private_bundle, decode_private_bundle,
}
use openmls_dart.Account.PrivateBundle.RoundTrip.{
  IsBundle, decode-encode_private_bundle, decode_private_bundle-eq-ok,
}
use openmls_dart.Account.PublicBundle.{
  PublicBundleTbsV1, ParsedPublicBundleV1, encode_public_bundle_tbs, parse_public_bundle_tbs,
  read_public_bundle_tbs, parse_reset_reason, encode_complete_public_bundle,
  parse_complete_public_bundle, read_complete_public_bundle, is_valid_shape, validate_bundle_shape,
  encode_rotation_candidate, parse_rotation_candidate, read_rotation_candidate,
}
use openmls_dart.Account.PublicBundle.Tbs.{
  IsTbs, parse-encode_public_bundle_tbs, parse_public_bundle_tbs-eq-ok,
}
use openmls_dart.Account.PublicBundle.Complete.{
  IsComplete, parse-encode_complete_public_bundle, parse_complete_public_bundle-eq-ok,
  rotation_candidate_completes,
}

-- Version 4, variant 2.
abbrev account : Bytes
account = 1 ∷ 2 ∷ 3 ∷ 4 ∷ 5 ∷ 6 ∷ 64 ∷ 7 ∷ 128 ∷ 8 ∷ 9 ∷ 10 ∷ 11 ∷ 12 ∷ 13 ∷ 14 ∷ []

abbrev bundle : DecodedPrivateBundleV1
bundle = record {
  state = active_full;
  authority = record {
    account_id = account;
    generation = 2;
    root_installation_id = account;
    root_authority_generation = 7;
  };
  hpke_private_key = replicate 32 21;
  hpke_public_key = replicate 32 22;
  signature_private_key = some (replicate 32 23);
  signature_public_key = replicate 32 24;
}

abbrev bundle_bytes : Bytes
bundle_bytes =
    1 ∷ 1 ∷ account
    ++ (0 ∷ 0 ∷ 0 ∷ 0 ∷ 0 ∷ 0 ∷ 0 ∷ 2 ∷ account
        ++ (0 ∷ 0 ∷ 0 ∷ 0 ∷ 0 ∷ 0 ∷ 0 ∷ 7 ∷ 0 ∷ 32 ∷ 0 ∷ 1 ∷ 0 ∷ 1 ∷ 8 ∷ 7 ∷ replicate 32 21
            ++ (replicate 32 22 ++ (1 ∷ replicate 32 23 ++ replicate 32 24))))

bundle-IsBundle : IsBundle bundle
unfolding validate_authority is_canonical_uuid
bundle-IsBundle = record {
  account_length = refl;
  root_length = refl;
  authority_valid = refl;
  hpke_private_length = refl;
  hpke_public_length = refl;
  signature_private_length = refl;
  signature_public_length = refl;
  hpke_private_nonzero = refl;
  hpke_public_nonzero = refl;
  signature_public_nonzero = refl;
  state_fits = refl;
}

decode-encode_private_bundle_example :
    decode_private_bundle (encode_private_bundle bundle) ≡ ok bundle
decode-encode_private_bundle_example = decode-encode_private_bundle bundle bundle-IsBundle

bundle_decoded : decode_private_bundle bundle_bytes ≡ ok bundle
unfolding decode_private_bundle read_private_bundle to_be_bytes state_as_u8 state_from_u8
    validate_authority is_canonical_uuid read_u8 read_u16 read_u64 read_array read_suite
    read_optional is_finished from_be_bytes
bundle_decoded = refl

bundle_bytes-IsByte : All IsByte bundle_bytes
bundle_bytes-IsByte = ground arith

decode_private_bundle-eq-ok_example :
    (encode_private_bundle bundle ≡ bundle_bytes) × IsBundle bundle
decode_private_bundle-eq-ok_example =
    decode_private_bundle-eq-ok bundle_bytes bundle bundle_bytes-IsByte bundle_decoded

-- The second generation, by rotation.
abbrev tbs : PublicBundleTbsV1
tbs = record {
  account_id = account;
  generation = 2;
  hpke_public_key = replicate 32 22;
  signature_public_key = replicate 32 24;
  activation_kind = rotation;
  previous_generation = 1;
  reset_reason = none;
}

abbrev tbs_bytes : Bytes
tbs_bytes =
    1 ∷ account
    ++ (0 ∷ 0 ∷ 0 ∷ 0 ∷ 0 ∷ 0 ∷ 0 ∷ 2 ∷ 0 ∷ 32 ∷ 0 ∷ 1 ∷ 0 ∷ 1 ∷ 8 ∷ 7 ∷ replicate 32 22
        ++ (replicate 32 24 ++ 2 ∷ 0 ∷ 0 ∷ 0 ∷ 0 ∷ 0 ∷ 0 ∷ 0 ∷ 1 ∷ 0 ∷ []))

tbs-IsTbs : IsTbs tbs
unfolding is_canonical_uuid
tbs-IsTbs = record {
  account_length = refl;
  account_canonical = refl;
  generation_range = (omega arith, omega arith);
  previous_range = omega arith;
  hpke_length = refl;
  signature_length = refl;
  hpke_nonzero = refl;
  signature_nonzero = refl;
}

parse-encode_public_bundle_tbs_example :
    parse_public_bundle_tbs (encode_public_bundle_tbs tbs) ≡ ok tbs
parse-encode_public_bundle_tbs_example = parse-encode_public_bundle_tbs tbs tbs-IsTbs

tbs_parsed : parse_public_bundle_tbs tbs_bytes ≡ ok tbs
unfolding parse_public_bundle_tbs read_public_bundle_tbs to_be_bytes from_be_bytes read_u8 read_u16
    read_u64 read_array read_suite read_optional is_finished is_canonical_uuid activation_value
    activation_from_u8 reset_reason_new reset_reason_value parse_reset_reason
tbs_parsed = refl

tbs_bytes-IsByte : All IsByte tbs_bytes
tbs_bytes-IsByte = ground arith

parse_public_bundle_tbs-eq-ok_example : (encode_public_bundle_tbs tbs ≡ tbs_bytes) × IsTbs tbs
parse_public_bundle_tbs-eq-ok_example =
    parse_public_bundle_tbs-eq-ok tbs_bytes tbs tbs_bytes-IsByte tbs_parsed

abbrev candidate : ParsedPublicBundleV1
candidate = record {
  tbs = tbs;
  tbs_bytes = tbs_bytes;
  self_signature = replicate 64 31;
  transition_signature = none;
}

abbrev complete : ParsedPublicBundleV1
complete = record candidate { transition_signature = some (replicate 64 32) }

complete-IsComplete : IsComplete complete
unfolding encode_public_bundle_tbs is_valid_shape activation_value to_be_bytes reset_reason_value
complete-IsComplete = record {
  tbs_valid = tbs-IsTbs;
  tbs_encoded = refl;
  self_length = refl;
  transition_length = refl;
  shape = refl;
}

parse-encode_complete_public_bundle_example :
    parse_complete_public_bundle
      (encode_complete_public_bundle tbs_bytes (replicate 64 31) (some (replicate 64 32)))
    ≡ ok complete
parse-encode_complete_public_bundle_example =
    parse-encode_complete_public_bundle complete complete-IsComplete

abbrev complete_bytes : Bytes
complete_bytes = tbs_bytes ++ (replicate 64 31 ++ (1 ∷ replicate 64 32))

complete_parsed : parse_complete_public_bundle complete_bytes ≡ ok complete
unfolding parse_complete_public_bundle read_complete_public_bundle parse_public_bundle_tbs
    read_public_bundle_tbs validate_bundle_shape is_valid_shape to_be_bytes from_be_bytes read_u8
    read_u16 read_u64 read_array read_suite read_optional is_finished is_canonical_uuid
    activation_value activation_from_u8 reset_reason_new reset_reason_value parse_reset_reason
complete_parsed = refl

complete_bytes-IsByte : All IsByte complete_bytes
complete_bytes-IsByte = ground arith

parse_complete_public_bundle-eq-ok_example :
    (encode_complete_public_bundle tbs_bytes (replicate 64 31) (some (replicate 64 32))
      ≡ complete_bytes)
    × IsComplete complete
parse_complete_public_bundle-eq-ok_example =
    parse_complete_public_bundle-eq-ok complete_bytes complete complete_bytes-IsByte complete_parsed

abbrev candidate_bytes : Bytes
candidate_bytes = tbs_bytes ++ replicate 64 31

candidate_parsed : parse_rotation_candidate candidate_bytes ≡ ok candidate
unfolding parse_rotation_candidate read_rotation_candidate parse_public_bundle_tbs
    read_public_bundle_tbs validate_bundle_shape is_valid_shape to_be_bytes from_be_bytes read_u8
    read_u16 read_u64 read_array read_suite read_optional is_finished is_canonical_uuid
    activation_value activation_from_u8 reset_reason_new reset_reason_value parse_reset_reason
candidate_parsed = refl

candidate_bytes-IsByte : All IsByte candidate_bytes
candidate_bytes-IsByte = ground arith

rotation_candidate_completes_example :
    (encode_rotation_candidate tbs_bytes (replicate 64 31) ≡ candidate_bytes)
    × (parse_complete_public_bundle
          (encode_complete_public_bundle tbs_bytes (replicate 64 31) (some (replicate 64 32)))
        ≡ ok complete)
rotation_candidate_completes_example =
    rotation_candidate_completes candidate_bytes candidate (replicate 64 32) candidate_bytes-IsByte
      candidate_parsed refl
