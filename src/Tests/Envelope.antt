-- ===== src/Tests/Envelope.antt =====
-- An account whose second bundle follows its first: rust/src/api/account_envelope/mod.rs with a
-- provider for tests, in which a public key is its private key.
pub mod Toy
use openmls_dart.Prelude.{
  ℕ, ◌≡◌, ◌≤◌, ◌↔◌, refl, some, none, true, false, [], ◌∷◌, ◌++◌, length, All, IsByte, Bytes,
  bytes_eq, replicate, take, to_be_bytes, from_be_bytes, Result, ok, err, arith,
}
use openmls_dart.Account.Types.{
  DecodedPrivateBundleV1, AccountEnvelopePrivateBundleAuthorityV1, active_full, initial, rotation,
  validate_authority, is_canonical_uuid, state_as_u8, state_from_u8, activation_from_u8,
  reset_reason_new, private_bundle_invalid,
}
use openmls_dart.Account.Cursor.{
  read_u8, read_u16, read_u64, read_array, read_suite, read_optional, is_finished,
}
use openmls_dart.Account.PrivateBundle.{
  encode_private_bundle, read_private_bundle, decode_private_bundle,
}
use openmls_dart.Account.PublicBundle.{
  PublicBundleTbsV1, ParsedPublicBundleV1, parse_public_bundle_tbs, read_public_bundle_tbs,
  parse_reset_reason, encode_complete_public_bundle, parse_complete_public_bundle,
  read_complete_public_bundle, is_valid_shape, validate_bundle_shape, parse_rotation_candidate,
  read_rotation_candidate,
}
use openmls_dart.Account.Crypto.{
  transcript, exact_signature, sign_domain_message, verify_domain_signature, self_test_signature,
  validate_private_bundle_crypto, bundle_self_signature_domain_v1,
  bundle_transition_signature_domain_v1, total_length,
}
use openmls_dart.Account.Bundles.{
  AuthorizeSuccessorPublicBundleResultV1, authority_eq, is_successor_of, retired,
  verify_self_signature, decode_and_validate_private_bundle, public_bundle_digest_v1,
  verify_canonical_public_bundle_v1, authorize_successor_public_bundle_v1,
}
use openmls_dart.Account.Continuity.{verify_transition, verify_continuity_response_v1}
use openmls_dart.Account.Continuity.Chain.{
  IsNext, IsVerified, IsLink, Chain, here, link, rotation_result,
}
use openmls_dart.Account.Continuity.Signed.{verify_transition-IsSigned}
use openmls_dart.Account.Continuity.Response.{
  Follows, verify_continuity_response-Follows, rotation-Chain_iff,
}
use openmls_dart.Account.Continuity.Successor.{authorized_bundle_continues, retired_bundle_is_spent}
use openmls_dart.Tests.Envelope.Toy.{account, toy, toy_signature, toy_sha256}

abbrev pub authority : AccountEnvelopePrivateBundleAuthorityV1
authority = record {
  account_id = account;
  generation = 1;
  root_installation_id = account;
  root_authority_generation = 7;
}

abbrev pub first_private : DecodedPrivateBundleV1
first_private = record {
  state = active_full;
  authority = authority;
  hpke_private_key = replicate 32 22;
  hpke_public_key = replicate 32 22;
  signature_private_key = some (replicate 32 24);
  signature_public_key = replicate 32 24;
}

abbrev pub first_private_bytes : Bytes
first_private_bytes =
    1 ∷ 1 ∷ account
    ++ (0 ∷ 0 ∷ 0 ∷ 0 ∷ 0 ∷ 0 ∷ 0 ∷ 1 ∷ account
        ++ (0 ∷ 0 ∷ 0 ∷ 0 ∷ 0 ∷ 0 ∷ 0 ∷ 7 ∷ 0 ∷ 32 ∷ 0 ∷ 1 ∷ 0 ∷ 1 ∷ 8 ∷ 7 ∷ replicate 32 22
            ++ (replicate 32 22 ++ (1 ∷ replicate 32 24 ++ replicate 32 24))))

abbrev first_tbs_bytes : Bytes
first_tbs_bytes =
    1 ∷ account
    ++ (0 ∷ 0 ∷ 0 ∷ 0 ∷ 0 ∷ 0 ∷ 0 ∷ 1 ∷ 0 ∷ 32 ∷ 0 ∷ 1 ∷ 0 ∷ 1 ∷ 8 ∷ 7 ∷ replicate 32 22
        ++ (replicate 32 24 ++ 1 ∷ 0 ∷ 0 ∷ 0 ∷ 0 ∷ 0 ∷ 0 ∷ 0 ∷ 0 ∷ 0 ∷ []))

abbrev first_signature : Bytes
first_signature =
    toy_signature (bundle_self_signature_domain_v1 ++ first_tbs_bytes) (replicate 32 24)

abbrev pub first : ParsedPublicBundleV1
first = record {
  tbs = record {
    account_id = account;
    generation = 1;
    hpke_public_key = replicate 32 22;
    signature_public_key = replicate 32 24;
    activation_kind = initial;
    previous_generation = 0;
    reset_reason = none;
  };
  tbs_bytes = first_tbs_bytes;
  self_signature = first_signature;
  transition_signature = none;
}

abbrev pub first_bytes : Bytes
first_bytes = first_tbs_bytes ++ (first_signature ++ (0 ∷ []))

abbrev second_tbs_bytes : Bytes
second_tbs_bytes =
    1 ∷ account
    ++ (0 ∷ 0 ∷ 0 ∷ 0 ∷ 0 ∷ 0 ∷ 0 ∷ 2 ∷ 0 ∷ 32 ∷ 0 ∷ 1 ∷ 0 ∷ 1 ∷ 8 ∷ 7 ∷ replicate 32 26
        ++ (replicate 32 25 ++ 2 ∷ 0 ∷ 0 ∷ 0 ∷ 0 ∷ 0 ∷ 0 ∷ 0 ∷ 1 ∷ 0 ∷ []))

abbrev second_signature : Bytes
second_signature =
    toy_signature (bundle_self_signature_domain_v1 ++ second_tbs_bytes) (replicate 32 25)

abbrev transition : Bytes
transition =
    toy_signature
      (bundle_transition_signature_domain_v1 ++ (second_tbs_bytes ++ (second_signature ++ [])))
      (replicate 32 24)

abbrev second_tbs : PublicBundleTbsV1
second_tbs = record {
  account_id = account;
  generation = 2;
  hpke_public_key = replicate 32 26;
  signature_public_key = replicate 32 25;
  activation_kind = rotation;
  previous_generation = 1;
  reset_reason = none;
}

abbrev second : ParsedPublicBundleV1
second = record {
  tbs = second_tbs;
  tbs_bytes = second_tbs_bytes;
  self_signature = second_signature;
  transition_signature = some transition;
}

abbrev second_candidate : Bytes
second_candidate = second_tbs_bytes ++ second_signature

abbrev second_bytes : Bytes
second_bytes = second_tbs_bytes ++ (second_signature ++ (1 ∷ transition))

abbrev authorized : AuthorizeSuccessorPublicBundleResultV1
authorized = record {
  authorized_canonical_successor_public_bundle = second_bytes;
  retired_previous_private_bundle_candidate = encode_private_bundle (retired first_private);
}

pub first_private_decoded : decode_private_bundle first_private_bytes ≡ ok first_private
unfolding decode_private_bundle read_private_bundle to_be_bytes state_as_u8 state_from_u8
    validate_authority is_canonical_uuid read_u8 read_u16 read_u64 read_array read_suite
    read_optional is_finished from_be_bytes
first_private_decoded = refl

first_parsed : parse_complete_public_bundle first_bytes ≡ ok first
unfolding parse_complete_public_bundle read_complete_public_bundle parse_public_bundle_tbs
    read_public_bundle_tbs validate_bundle_shape is_valid_shape to_be_bytes from_be_bytes read_u8
    read_u16 read_u64 read_array read_suite read_optional is_finished is_canonical_uuid
    activation_from_u8 reset_reason_new parse_reset_reason
first_parsed = refl

second_parsed : parse_complete_public_bundle second_bytes ≡ ok second
unfolding parse_complete_public_bundle read_complete_public_bundle parse_public_bundle_tbs
    read_public_bundle_tbs validate_bundle_shape is_valid_shape to_be_bytes from_be_bytes read_u8
    read_u16 read_u64 read_array read_suite read_optional is_finished is_canonical_uuid
    activation_from_u8 reset_reason_new parse_reset_reason
second_parsed = refl

pub first-IsVerified : IsVerified toy first_bytes first
unfolding verify_self_signature verify_domain_signature transcript bytes_eq
first-IsVerified = record { parsed = first_parsed; self_signed = refl }

second-IsVerified : IsVerified toy second_bytes second
unfolding verify_self_signature verify_domain_signature transcript bytes_eq
second-IsVerified = record { parsed = second_parsed; self_signed = refl }

second-IsLink : IsLink toy first second
unfolding verify_transition verify_domain_signature transcript bytes_eq
second-IsLink = record {
  next = record { same_account = refl; previous_number = refl; next_number = refl };
  by_rotation = refl;
  signed = verify_transition-IsSigned toy first second refl;
}

rotation-Chain_iff_example :
    (verify_continuity_response_v1 toy toy_sha256 (some first_bytes) (second_bytes ∷ []) false
      ≡ ok (rotation_result toy toy_sha256 second_bytes second))
    ↔ ((total_length 0 (second_bytes ∷ []) ≤ 65536)
        × (1 ≤ 1)
        × (1 ≤ 32)
        × Chain toy second_bytes second first first_bytes (second_bytes ∷ []))
rotation-Chain_iff_example =
    rotation-Chain_iff toy toy_sha256 first_bytes first (second_bytes ∷ []) second_bytes second
      first-IsVerified second-IsVerified

second_response :
    verify_continuity_response_v1 toy toy_sha256 (some first_bytes) (second_bytes ∷ []) false
    ≡ ok (rotation_result toy toy_sha256 second_bytes second)
second_response =
    rotation-Chain_iff_example.1
      (omega arith, omega arith, omega arith, link second-IsVerified second-IsLink (here refl refl))

verify_continuity_response-Follows_example :
    Follows toy toy_sha256 first_bytes
      (second_bytes ∷ [])
      false
      (rotation_result toy toy_sha256 second_bytes second)
verify_continuity_response-Follows_example =
    verify_continuity_response-Follows toy toy_sha256 first_bytes (second_bytes ∷ []) false
      (rotation_result toy toy_sha256 second_bytes second) second_response

second_authorized :
    authorize_successor_public_bundle_v1 toy toy_sha256 [] authority first_private_bytes
      second_candidate
    ≡ ok authorized
unfolding authorize_successor_public_bundle_v1 decode_and_validate_private_bundle
    validate_private_bundle_crypto self_test_signature sign_domain_message verify_domain_signature
    exact_signature transcript authority_eq is_successor_of verify_self_signature
    verify_canonical_public_bundle_v1 public_bundle_digest_v1 encode_complete_public_bundle
    encode_private_bundle decode_private_bundle read_private_bundle to_be_bytes state_as_u8
    state_from_u8 validate_authority is_canonical_uuid read_u8 read_u16 read_u64 read_array
    read_suite read_optional is_finished from_be_bytes parse_rotation_candidate
    read_rotation_candidate parse_complete_public_bundle read_complete_public_bundle
    parse_public_bundle_tbs read_public_bundle_tbs validate_bundle_shape is_valid_shape
    activation_from_u8 reset_reason_new parse_reset_reason bytes_eq
second_authorized = refl

second_candidate-IsByte : All IsByte second_candidate
second_candidate-IsByte = ground arith

first_private_bytes-IsByte : All IsByte first_private_bytes
first_private_bytes-IsByte = ground arith

authorized_bundle_continues_example :
    (q : ParsedPublicBundleV1) × (verify_continuity_response_v1 toy toy_sha256
        (some first_bytes)
        (second_bytes ∷ [])
        false
      ≡ ok (rotation_result toy toy_sha256 second_bytes q))
authorized_bundle_continues_example =
    authorized_bundle_continues toy toy_sha256 [] authority first_private_bytes second_candidate
      authorized first_private first_bytes first second_candidate-IsByte second_authorized
      first_private_decoded first-IsVerified refl refl refl

retired_bundle_is_spent_example :
    (decode_private_bundle (encode_private_bundle (retired first_private))
      ≡ ok (retired first_private))
    × ((fresh other : Bytes)
        → authorize_successor_public_bundle_v1 toy toy_sha256 fresh authority
            (encode_private_bundle (retired first_private))
            other
          ≡ err private_bundle_invalid)
retired_bundle_is_spent_example =
    retired_bundle_is_spent toy toy_sha256 [] authority first_private_bytes second_candidate
      authorized first_private first_private_bytes-IsByte second_authorized first_private_decoded
