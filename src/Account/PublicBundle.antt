-- ===== src/Account/PublicBundle.antt =====
-- The public bundle of rust/src/api/account_envelope/codec.rs. Writing the fields at a moving cursor
-- of a zeroed array of their whole length joins them.
pub mod Tbs
pub mod Complete
use openmls_dart.Prelude.{
  ℕ, ◌-◌, Bool, true, false, not, ◌||◌, ◌&&◌, Option, none, some, List, [], ◌∷◌, ◌++◌, length,
  Bytes, to_be_bytes, ltb, ◌==◌, is_some, Result, ok, err, guard, if◌then◌else◌,
}
use openmls_dart.Prelude
use openmls_dart.Account.Types.{
  AccountEnvelopeErrorCodeV1, AccountEnvelopeResult, unsupported_version, non_canonical_encoding,
  format_version_v1, public_bundle_tbs_bytes, self_signed_candidate_bytes,
  public_bundle_no_transition_bytes, public_bundle_rotation_bytes, public_bundle_max_bytes,
  key_bytes, signature_bytes, max_web_safe_integer, is_canonical_uuid,
  AccountEnvelopeActivationKindV1, initial, rotation, continuity_reset, activation_value,
  activation_from_u8, AccountEnvelopeResetReasonV1, reset_reason_new, reset_reason_value,
}
use openmls_dart.Account.Cursor.{
  Reader, ◌>>=◌, ◌>>◌, pure, lift, check, read_array, read_u8, read_u64, remaining, is_finished,
  read_suite, read_optional, suite_bytes, optional_bytes,
}
use openmls_dart.Account.PrivateBundle.{all_zero}

pub record PublicBundleTbsV1 : Type 0 where
  pub account_id : Bytes
  pub generation : ℕ
  pub hpke_public_key : Bytes
  pub signature_public_key : Bytes
  pub activation_kind : AccountEnvelopeActivationKindV1
  pub previous_generation : ℕ
  pub reset_reason : Option AccountEnvelopeResetReasonV1

pub record ParsedPublicBundleV1 : Type 0 where
  pub tbs : PublicBundleTbsV1
  pub tbs_bytes : Bytes
  pub self_signature : Bytes
  pub transition_signature : Option Bytes

-- `reset_reason.map_or(0, value)`.
abbrev pub reset_value : Option AccountEnvelopeResetReasonV1 → ℕ
reset_value none = 0
reset_value (some reason) = reset_reason_value reason

unfoldable pub encode_public_bundle_tbs : PublicBundleTbsV1 → Bytes
encode_public_bundle_tbs t =
    (format_version_v1 ∷ [])
    ++ (t.account_id
        ++ (to_be_bytes 8 t.generation
            ++ (suite_bytes
                ++ (t.hpke_public_key
                    ++ (t.signature_public_key
                        ++ ((activation_value t.activation_kind ∷ [])
                            ++ (to_be_bytes 8 t.previous_generation
                                ++ reset_value t.reset_reason ∷ [])))))))

unfoldable pub encode_complete_public_bundle : Bytes → Bytes → Option Bytes → Bytes
encode_complete_public_bundle tbs_bytes self_signature transition_signature =
    tbs_bytes ++ (self_signature ++ optional_bytes transition_signature)

unfoldable pub encode_rotation_candidate : Bytes → Bytes → Bytes
encode_rotation_candidate tbs_bytes self_signature = tbs_bytes ++ self_signature

unfoldable pub parse_reset_reason : ℕ → AccountEnvelopeResult (Option AccountEnvelopeResetReasonV1)
parse_reset_reason raw =
    if raw == 0 then ok none else Prelude.◌>>=◌ (reset_reason_new raw) (λ reason. ok (some reason))

-- What `parse_public_bundle_tbs` does with its cursor.
unfoldable pub read_public_bundle_tbs : Reader PublicBundleTbsV1
read_public_bundle_tbs = do
  version ← read_u8
  check (version == format_version_v1) unsupported_version
  account_id ← read_array 16
  generation ← read_u64
  read_suite non_canonical_encoding
  hpke_public_key ← read_array key_bytes
  signature_public_key ← read_array key_bytes
  raw_kind ← read_u8
  activation_kind ← lift (activation_from_u8 raw_kind)
  previous_generation ← read_u64
  reset_reason_raw ← read_u8
  rest ← remaining
  check
      (not (
        not (is_finished rest)
        || (not (is_canonical_uuid account_id)
            || (generation == 0
                || (ltb max_web_safe_integer generation
                    || (ltb max_web_safe_integer previous_generation
                        || (all_zero hpke_public_key || all_zero signature_public_key)))))))
      non_canonical_encoding
  reset_reason ← lift (parse_reset_reason reset_reason_raw)
  pure (record {
    account_id = account_id;
    generation = generation;
    hpke_public_key = hpke_public_key;
    signature_public_key = signature_public_key;
    activation_kind = activation_kind;
    previous_generation = previous_generation;
    reset_reason = reset_reason;
  })

unfoldable pub parse_public_bundle_tbs : Bytes → AccountEnvelopeResult PublicBundleTbsV1
parse_public_bundle_tbs input = Prelude.◌>>=◌ (read_public_bundle_tbs input) (λ r. ok r.0)

-- Which generations, reset reason and transition signature a kind of activation has.
unfoldable pub is_valid_shape : AccountEnvelopeActivationKindV1 → PublicBundleTbsV1 → Bool → Bool
is_valid_shape initial t has_transition_signature =
    t.generation == 1
    && (t.previous_generation == 0
        && (not (is_some t.reset_reason) && not has_transition_signature))
is_valid_shape rotation t has_transition_signature =
    ltb 1 t.generation
    && (t.previous_generation == t.generation - 1
        && (not (is_some t.reset_reason) && has_transition_signature))
is_valid_shape continuity_reset t has_transition_signature =
    ltb 1 t.generation
    && (t.previous_generation == t.generation - 1
        && (is_some t.reset_reason && not has_transition_signature))

unfoldable pub validate_bundle_shape : PublicBundleTbsV1 → Bool → AccountEnvelopeResult (Unit {0})
validate_bundle_shape t has_transition_signature =
    guard (is_valid_shape t.activation_kind t has_transition_signature) non_canonical_encoding

-- What `parse_complete_public_bundle` does with its cursor.
unfoldable pub read_complete_public_bundle : Reader ParsedPublicBundleV1
read_complete_public_bundle = do
  tbs_bytes ← read_array public_bundle_tbs_bytes
  tbs ← lift (parse_public_bundle_tbs tbs_bytes)
  self_signature ← read_array signature_bytes
  flag ← read_u8
  transition_signature ← read_optional signature_bytes non_canonical_encoding flag
  rest ← remaining
  check (is_finished rest) non_canonical_encoding
  lift (validate_bundle_shape tbs (is_some transition_signature))
  pure (record {
    tbs = tbs;
    tbs_bytes = tbs_bytes;
    self_signature = self_signature;
    transition_signature = transition_signature;
  })

unfoldable pub parse_complete_public_bundle : Bytes → AccountEnvelopeResult ParsedPublicBundleV1
parse_complete_public_bundle input =
    Prelude.◌>>◌
      (guard
        (not (
          ltb public_bundle_max_bytes (length input)
          || (not (length input == public_bundle_no_transition_bytes)
              && not (length input == public_bundle_rotation_bytes))))
        non_canonical_encoding)
      (Prelude.◌>>=◌ (read_complete_public_bundle input) (λ r. ok r.0))

abbrev pub is_rotation : AccountEnvelopeActivationKindV1 → Bool
is_rotation initial = false
is_rotation rotation = true
is_rotation continuity_reset = false

-- What `parse_rotation_candidate` does with its cursor.
unfoldable pub read_rotation_candidate : Reader ParsedPublicBundleV1
read_rotation_candidate = do
  tbs_bytes ← read_array public_bundle_tbs_bytes
  tbs ← lift (parse_public_bundle_tbs tbs_bytes)
  self_signature ← read_array signature_bytes
  rest ← remaining
  check (not (not (is_finished rest) || not (is_rotation tbs.activation_kind)))
      non_canonical_encoding
  lift (validate_bundle_shape tbs true)
  pure (record {
    tbs = tbs;
    tbs_bytes = tbs_bytes;
    self_signature = self_signature;
    transition_signature = none;
  })

unfoldable pub parse_rotation_candidate : Bytes → AccountEnvelopeResult ParsedPublicBundleV1
parse_rotation_candidate input =
    Prelude.◌>>◌ (guard (length input == self_signed_candidate_bytes) non_canonical_encoding)
      (Prelude.◌>>=◌ (read_rotation_candidate input) (λ r. ok r.0))
