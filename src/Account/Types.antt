-- ===== src/Account/Types.antt =====
-- The constants and types of rust/src/api/account_envelope/types.rs. An array `[u8; N]` is a byte
-- string, and an error is its code. Zeroization is not modelled.
use openmls_dart.Prelude.{
  ℕ, zero, suc, ◌-◌, ◌/◌, ◌^◌, Bool, not, ◌||◌, ◌&&◌, Option, [], ◌∷◌, any, Bytes, ltb, leb, ◌==◌,
  Result, ok, err, guard, if◌then◌else◌,
}

abbrev pub format_version_v1 : ℕ
format_version_v1 = 1

abbrev pub private_bundle_active_bytes : ℕ
private_bundle_active_bytes = 187

abbrev pub private_bundle_retired_bytes : ℕ
private_bundle_retired_bytes = 155

abbrev pub private_bundle_max_bytes : ℕ
private_bundle_max_bytes = 256

abbrev pub public_bundle_tbs_bytes : ℕ
public_bundle_tbs_bytes = 107

abbrev pub self_signed_candidate_bytes : ℕ
self_signed_candidate_bytes = 171

abbrev pub public_bundle_no_transition_bytes : ℕ
public_bundle_no_transition_bytes = 172

abbrev pub public_bundle_rotation_bytes : ℕ
public_bundle_rotation_bytes = 236

abbrev pub public_bundle_max_bytes : ℕ
public_bundle_max_bytes = 256

abbrev pub key_bytes : ℕ
key_bytes = 32

abbrev pub signature_bytes : ℕ
signature_bytes = 64

abbrev pub max_web_safe_integer : ℕ
max_web_safe_integer = 2 ^ 53 - 1

abbrev pub hpke_kem_id : ℕ
hpke_kem_id = 32

abbrev pub hpke_kdf_id : ℕ
hpke_kdf_id = 1

abbrev pub hpke_aead_id : ℕ
hpke_aead_id = 1

-- 0x0807.
abbrev pub signature_scheme_id : ℕ
signature_scheme_id = 2055

pub data AccountEnvelopeErrorCodeV1 : Type 0 where
  authority_mismatch unsupported_version non_canonical_encoding signature_invalid :
      AccountEnvelopeErrorCodeV1
  hpke_open_failed plaintext_schema_invalid bounds_exceeded : AccountEnvelopeErrorCodeV1
  private_bundle_invalid internal_crypto_failure : AccountEnvelopeErrorCodeV1

abbrev pub AccountEnvelopeResult : Type 0 → Type 0
AccountEnvelopeResult A = Result AccountEnvelopeErrorCodeV1 A

-- Indexing an array, which has the place.
abbrev pub byte_at : ℕ → Bytes → ℕ
byte_at i [] = 0
byte_at zero (b ∷ bs) = b
byte_at (suc i) (b ∷ bs) = byte_at i bs

-- `value[8] & 0b1100_0000 == 0b1000_0000` reads the two high bits of a byte.
unfoldable pub is_canonical_uuid : Bytes → Bool
is_canonical_uuid value =
    any (λ byte. not (byte == 0)) value
    && (byte_at 8 value / 64 == 2 && (leb 1 (byte_at 6 value / 16) && leb (byte_at 6 value / 16) 8))

pub record AccountEnvelopePrivateBundleAuthorityV1 : Type 0 where
  pub account_id : Bytes
  pub generation : ℕ
  pub root_installation_id : Bytes
  pub root_authority_generation : ℕ

-- `AccountEnvelopePrivateBundleAuthorityV1::validate`.
unfoldable pub validate_authority :
    AccountEnvelopePrivateBundleAuthorityV1 → AccountEnvelopeResult (Unit {0})
validate_authority a =
    guard
      (not (
        not (is_canonical_uuid a.account_id)
        || (not (is_canonical_uuid a.root_installation_id)
            || (a.generation == 0
                || (ltb max_web_safe_integer a.generation
                    || (a.root_authority_generation == 0
                        || ltb max_web_safe_integer a.root_authority_generation))))))
      authority_mismatch

pub data AccountEnvelopeActivationKindV1 : Type 0 where
  initial rotation continuity_reset : AccountEnvelopeActivationKindV1

unfoldable pub activation_value : AccountEnvelopeActivationKindV1 → ℕ
activation_value initial = 1
activation_value rotation = 2
activation_value continuity_reset = 3

unfoldable pub activation_from_u8 : ℕ → AccountEnvelopeResult AccountEnvelopeActivationKindV1
activation_from_u8 value =
    if value == 1
    then ok initial
    else if value == 2
    then ok rotation
    else if value == 3
    then ok continuity_reset
    else err non_canonical_encoding

pub data AccountEnvelopeResetReasonV1 : Type 0 where
  identity_reset chat_store_reset root_installation_move : AccountEnvelopeResetReasonV1
  root_or_database_key_loss account_recovery compromise : AccountEnvelopeResetReasonV1

unfoldable pub reset_reason_new : ℕ → AccountEnvelopeResult AccountEnvelopeResetReasonV1
reset_reason_new value =
    if value == 1
    then ok identity_reset
    else if value == 2
    then ok chat_store_reset
    else if value == 3
    then ok root_installation_move
    else if value == 4
    then ok root_or_database_key_loss
    else if value == 5
    then ok account_recovery
    else if value == 6
    then ok compromise
    else err non_canonical_encoding

unfoldable pub reset_reason_value : AccountEnvelopeResetReasonV1 → ℕ
reset_reason_value identity_reset = 1
reset_reason_value chat_store_reset = 2
reset_reason_value root_installation_move = 3
reset_reason_value root_or_database_key_loss = 4
reset_reason_value account_recovery = 5
reset_reason_value compromise = 6

pub data PrivateBundleStateV1 : Type 0 where
  active_full retired_decrypt_only : PrivateBundleStateV1

unfoldable pub state_as_u8 : PrivateBundleStateV1 → ℕ
state_as_u8 active_full = 1
state_as_u8 retired_decrypt_only = 2

unfoldable pub state_from_u8 : ℕ → AccountEnvelopeResult PrivateBundleStateV1
state_from_u8 value =
    if value == 1
    then ok active_full
    else if value == 2
    then ok retired_decrypt_only
    else err private_bundle_invalid

pub record DecodedPrivateBundleV1 : Type 0 where
  pub state : PrivateBundleStateV1
  pub authority : AccountEnvelopePrivateBundleAuthorityV1
  pub hpke_private_key : Bytes
  pub hpke_public_key : Bytes
  pub signature_private_key : Option Bytes
  pub signature_public_key : Bytes
