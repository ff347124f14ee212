-- ===== src/Account/Bundles.antt =====
-- The bundle operations of rust/src/api/account_envelope/mod.rs: generating a private bundle, signing
-- a public one, authorizing a successor and verifying. SHA-256 is a parameter.
use openmls_dart.Prelude.{
  ℕ, ◌+◌, ◌-◌, Bool, true, false, not, ◌||◌, ◌&&◌, Option, none, some, [], ◌∷◌, ◌++◌, Bytes,
  bytes_eq, ltb, ◌==◌, is_some, ok, ◌>>=◌, ◌>>◌, guard, ok_or,
}
use openmls_dart.Account.Types.{
  AccountEnvelopeResult, authority_mismatch, non_canonical_encoding, private_bundle_invalid,
  AccountEnvelopePrivateBundleAuthorityV1, validate_authority, DecodedPrivateBundleV1,
  PrivateBundleStateV1, active_full, retired_decrypt_only, AccountEnvelopeActivationKindV1, initial,
  rotation, continuity_reset, AccountEnvelopeResetReasonV1,
}
use openmls_dart.Account.Crypto.{
  CryptoProvider, bundle_self_signature_domain_v1, bundle_transition_signature_domain_v1,
  bundle_digest_domain_v1, sign_domain_message, verify_domain_signature,
  validate_private_bundle_crypto, generate_private_bundle,
}
use openmls_dart.Account.PrivateBundle.{encode_private_bundle, decode_private_bundle}
use openmls_dart.Account.PublicBundle.{
  PublicBundleTbsV1, ParsedPublicBundleV1, encode_public_bundle_tbs, encode_complete_public_bundle,
  encode_rotation_candidate, parse_complete_public_bundle, parse_rotation_candidate, is_rotation,
}

pub record AccountEnvelopePublicBundleSummaryV1 : Type 0 where
  pub account_id : Bytes
  pub generation : ℕ
  pub hpke_public_key : Bytes
  pub signature_public_key : Bytes
  pub activation_kind : AccountEnvelopeActivationKindV1
  pub previous_generation : ℕ
  pub reset_reason : Option AccountEnvelopeResetReasonV1
  pub digest_sha256 : Bytes

pub data SelfSignedPublicBundleResultV1 : Type 0 where
  canonical_public_bundle non_publishable_rotation_candidate :
      Bytes → SelfSignedPublicBundleResultV1

pub record AuthorizeSuccessorPublicBundleResultV1 : Type 0 where
  pub authorized_canonical_successor_public_bundle : Bytes
  pub retired_previous_private_bundle_candidate : Bytes

-- The derived equality of authorities.
unfoldable pub authority_eq :
    AccountEnvelopePrivateBundleAuthorityV1 → AccountEnvelopePrivateBundleAuthorityV1 → Bool
authority_eq a b =
    bytes_eq a.account_id b.account_id
    && (a.generation == b.generation
        && (bytes_eq a.root_installation_id b.root_installation_id
            && a.root_authority_generation == b.root_authority_generation))

abbrev pub is_active : PrivateBundleStateV1 → Bool
is_active active_full = true
is_active retired_decrypt_only = false

abbrev pub is_requested_shape : AccountEnvelopeActivationKindV1 → PublicBundleTbsV1 → Bool
is_requested_shape initial t =
    t.generation == 1 && (t.previous_generation == 0 && not (is_some t.reset_reason))
is_requested_shape rotation t =
    ltb 1 t.generation
    && (t.previous_generation == t.generation - 1 && not (is_some t.reset_reason))
is_requested_shape continuity_reset t =
    ltb 1 t.generation && (t.previous_generation == t.generation - 1 && is_some t.reset_reason)

unfoldable pub validate_requested_shape : PublicBundleTbsV1 → AccountEnvelopeResult (Unit {0})
validate_requested_shape t = guard (is_requested_shape t.activation_kind t) non_canonical_encoding

-- The previous bundle without its signing key, which is zeroized.
abbrev pub retired : DecodedPrivateBundleV1 → DecodedPrivateBundleV1
retired previous = record previous { state = retired_decrypt_only; signature_private_key = none }

-- What `authorize_successor_public_bundle_v1` asks of the candidate's generations. Generations are
-- at most 2^53 - 1, so the sum does not overflow.
unfoldable pub is_successor_of : PublicBundleTbsV1 → AccountEnvelopePrivateBundleAuthorityV1 → Bool
is_successor_of t previous = not (
    not (bytes_eq t.account_id previous.account_id)
    || (not (t.previous_generation == previous.generation)
        || not (t.generation == previous.generation + 1)))

module _ (c : CryptoProvider) where
  unfoldable pub verify_self_signature : ParsedPublicBundleV1 → AccountEnvelopeResult (Unit {0})
  verify_self_signature parsed =
      verify_domain_signature c bundle_self_signature_domain_v1 (parsed.tbs_bytes ∷ [])
        parsed.tbs.signature_public_key parsed.self_signature

  unfoldable pub decode_and_validate_private_bundle :
      Bytes
      → Bytes
      → AccountEnvelopePrivateBundleAuthorityV1
      → Bool
      → AccountEnvelopeResult DecodedPrivateBundleV1
  decode_and_validate_private_bundle entropy private_bundle expected_authority require_active = do
    decoded ← decode_private_bundle private_bundle
    guard (authority_eq decoded.authority expected_authority) private_bundle_invalid
    guard (not (require_active && not (is_active decoded.state))) private_bundle_invalid
    validate_private_bundle_crypto c entropy decoded
    ok decoded

  unfoldable pub generate_key_bundle_v1 :
      Bytes → Bytes → Bytes → AccountEnvelopePrivateBundleAuthorityV1 → AccountEnvelopeResult Bytes
  generate_key_bundle_v1 seed_entropy key_entropy test_entropy authority = do
    validate_authority authority
    bundle ← generate_private_bundle c seed_entropy key_entropy test_entropy authority
    ok (encode_private_bundle bundle)

  module _ (sha256 : Bytes → Bytes) where
    unfoldable pub public_bundle_digest_v1 : Bytes → AccountEnvelopeResult Bytes
    public_bundle_digest_v1 bundle = do
      parsed ← parse_complete_public_bundle bundle
      verify_self_signature parsed
      ok (sha256 (bundle_digest_domain_v1 ++ bundle))

    unfoldable pub verify_canonical_public_bundle_v1 :
        Bytes → AccountEnvelopeResult AccountEnvelopePublicBundleSummaryV1
    verify_canonical_public_bundle_v1 bundle = do
      parsed ← parse_complete_public_bundle bundle
      verify_self_signature parsed
      digest ← public_bundle_digest_v1 bundle
      ok (record {
        account_id = parsed.tbs.account_id;
        generation = parsed.tbs.generation;
        hpke_public_key = parsed.tbs.hpke_public_key;
        signature_public_key = parsed.tbs.signature_public_key;
        activation_kind = parsed.tbs.activation_kind;
        previous_generation = parsed.tbs.previous_generation;
        reset_reason = parsed.tbs.reset_reason;
        digest_sha256 = digest;
      })

    -- The last step of `create_self_signed_public_bundle_v1`, from the test of the kind.
    unfoldable pub self_signed_result :
        Bool → Bytes → Bytes → AccountEnvelopeResult SelfSignedPublicBundleResultV1
    self_signed_result true tbs_bytes self_signature =
        ok (non_publishable_rotation_candidate (encode_rotation_candidate tbs_bytes self_signature))
    self_signed_result false tbs_bytes self_signature = do
      let bundle : Bytes = encode_complete_public_bundle tbs_bytes self_signature none
      _ ← verify_canonical_public_bundle_v1 bundle
      ok (canonical_public_bundle bundle)

    unfoldable pub create_self_signed_public_bundle_v1 :
        Bytes
        → Bytes
        → ℕ
        → AccountEnvelopeActivationKindV1
        → Option AccountEnvelopeResetReasonV1
        → ℕ
        → AccountEnvelopePrivateBundleAuthorityV1
        → Bytes
        → AccountEnvelopeResult SelfSignedPublicBundleResultV1
    create_self_signed_public_bundle_v1 entropy account_id generation activation_kind reset_reason
          previous_generation expected_authority private_bundle =
        do
          validate_authority expected_authority
          guard
              (not (
                not (bytes_eq account_id expected_authority.account_id)
                || not (generation == expected_authority.generation)))
              authority_mismatch
          decoded ←
              decode_and_validate_private_bundle entropy private_bundle expected_authority true
          let tbs : PublicBundleTbsV1 = record {
            account_id = account_id;
            generation = generation;
            hpke_public_key = decoded.hpke_public_key;
            signature_public_key = decoded.signature_public_key;
            activation_kind = activation_kind;
            previous_generation = previous_generation;
            reset_reason = reset_reason;
          }
          validate_requested_shape tbs
          let tbs_bytes : Bytes = encode_public_bundle_tbs tbs
          signature_private_key ← ok_or decoded.signature_private_key private_bundle_invalid
          self_signature ←
              sign_domain_message c bundle_self_signature_domain_v1 (tbs_bytes ∷ [])
                signature_private_key
          self_signed_result (is_rotation activation_kind) tbs_bytes self_signature

    unfoldable pub authorize_successor_public_bundle_v1 :
        Bytes
        → AccountEnvelopePrivateBundleAuthorityV1
        → Bytes
        → Bytes
        → AccountEnvelopeResult AuthorizeSuccessorPublicBundleResultV1
    authorize_successor_public_bundle_v1 entropy expected_previous previous_private_bundle
          successor =
        do
          validate_authority expected_previous
          previous ←
              decode_and_validate_private_bundle entropy previous_private_bundle expected_previous
                true
          candidate ← parse_rotation_candidate successor
          verify_self_signature candidate
          guard (is_successor_of candidate.tbs previous.authority) authority_mismatch
          previous_signature_private_key ←
              ok_or previous.signature_private_key private_bundle_invalid
          transition_signature ←
              sign_domain_message c bundle_transition_signature_domain_v1
                (candidate.tbs_bytes ∷ candidate.self_signature ∷ []) previous_signature_private_key
          verify_domain_signature c bundle_transition_signature_domain_v1
              (candidate.tbs_bytes ∷ candidate.self_signature ∷ []) previous.signature_public_key
              transition_signature
          let authorized : Bytes =
              encode_complete_public_bundle candidate.tbs_bytes candidate.self_signature
                (some transition_signature)
          _ ← verify_canonical_public_bundle_v1 authorized
          ok (record {
            authorized_canonical_successor_public_bundle = authorized;
            retired_previous_private_bundle_candidate = encode_private_bundle (retired previous);
          })
