-- ===== src/Account/Sealing.antt =====
-- Sealing and opening a context invitation: rust/src/api/account_envelope/mod.rs. The first entropy is
-- that of the key self-test, the second that of the seal.
pub mod Calls
pub mod Made
pub mod Size
pub mod RoundTrip
use openmls_dart.Prelude.{
  ℕ, ◌+◌, ◌-◌, Bool, true, false, Option, not, ◌||◌, ◌&&◌, List, [], ◌∷◌, ◌++◌, length, take, drop,
  replicate, any, Bytes, bytes_eq, ltb, ◌==◌, to_be_bytes, from_be_bytes, Result, ok, err, ◌>>=◌,
  ◌>>◌, guard, ok_or,
}
use openmls_dart.Account.Types.{
  AccountEnvelopeErrorCodeV1, AccountEnvelopeResult, authority_mismatch, bounds_exceeded,
  plaintext_schema_invalid, internal_crypto_failure, private_bundle_invalid,
  AccountEnvelopePrivateBundleAuthorityV1, validate_authority,
}
use openmls_dart.Account.Crypto.{
  CryptoProvider, envelope_signature_domain_v1, sign_domain_message, verify_domain_signature,
  hpke_seal_invitation, hpke_open_invitation,
}
use openmls_dart.Account.Bundles.{
  decode_and_validate_private_bundle, verify_canonical_public_bundle_v1,
}
use openmls_dart.Account.Invitation.{
  AccountEnvelopePaddingClassV1, plaintext_bytes, ciphertext_bytes, padding_value,
  ContextInvitationAuthorityV1, ExpectedContextInvitationAuthorityV1, validate_invitation,
  validate_expected_invitation, encode_invitation_header, ParsedInvitationEnvelopeV1,
  encode_invitation_envelope, parse_invitation_envelope,
}
use openmls_dart.Account.Invitation.PreviewCursor.{invitation_inner_max_bytes}
use openmls_dart.Account.Invitation.Preview.{
  ContextInvitationPreviewV1, Normalization, canonicalize_and_encode_preview,
  decode_canonical_preview,
}

-- The derived equality of authorities.
unfoldable pub invitation_eq : ContextInvitationAuthorityV1 → ContextInvitationAuthorityV1 → Bool
invitation_eq a b =
    bytes_eq a.envelope_id b.envelope_id
    && (bytes_eq a.invite_id b.invite_id
        && (bytes_eq a.sender_account_id b.sender_account_id
            && (a.sender_generation == b.sender_generation
                && (bytes_eq a.recipient_account_id b.recipient_account_id
                    && (a.recipient_generation == b.recipient_generation
                        && (a.authority_attempt == b.authority_attempt
                            && (a.relay_slot_version == b.relay_slot_version
                                && (a.server_created_at_unix_ms == b.server_created_at_unix_ms
                                    && (a.server_expires_at_unix_ms == b.server_expires_at_unix_ms
                                        && padding_value a.padding_class
                                          == padding_value b.padding_class)))))))))

-- An account and a generation that are not the wanted ones.
abbrev pub names_other : Bytes → ℕ → Bytes → ℕ → Bool
names_other account generation wanted_account wanted_generation =
    not (bytes_eq account wanted_account) || not (generation == wanted_generation)

-- The length, the text, and zeros up to the length of the class.
unfoldable pub padded : AccountEnvelopePaddingClassV1 → Bytes → AccountEnvelopeResult Bytes
padded class inner = do
  guard (not (ltb (plaintext_bytes class - 2) (length inner))) bounds_exceeded
  ok (
      to_be_bytes 2 (length inner)
      ++ (inner ++ replicate (plaintext_bytes class - 2 - length inner) 0))

-- The text in an opened plaintext.
unfoldable pub unpadded : AccountEnvelopePaddingClassV1 → Bytes → AccountEnvelopeResult Bytes
unpadded class plaintext = do
  guard (not (not (length plaintext == plaintext_bytes class) || ltb (length plaintext) 2))
      plaintext_schema_invalid
  let inner_len : ℕ = from_be_bytes (take 2 plaintext)
  guard
      (not (
        ltb invitation_inner_max_bytes inner_len
        || (ltb (length plaintext) (2 + inner_len)
            || any (λ byte. not (byte == 0)) (drop (2 + inner_len) plaintext))))
      plaintext_schema_invalid
  ok (take inner_len (drop 2 plaintext))

-- What an envelope's signature is over. A ciphertext has the length of its class, which is a `u16`.
abbrev pub signed_parts : Bytes → Bytes → Bytes → List Bytes
signed_parts canonical_header encapsulation ciphertext =
    canonical_header ∷ encapsulation ∷ to_be_bytes 2 (length ciphertext) ∷ ciphertext ∷ []

abbrev pub recipient_authority :
    ExpectedContextInvitationAuthorityV1
    → ContextInvitationAuthorityV1
    → AccountEnvelopePrivateBundleAuthorityV1
recipient_authority expected parsed = record {
  account_id = parsed.recipient_account_id;
  generation = parsed.recipient_generation;
  root_installation_id = expected.local_root_installation_id;
  root_authority_generation = expected.local_root_authority_generation;
}

module _ (c : CryptoProvider) where
  -- From the canonical header and the plaintext on.
  unfoldable pub seal_envelope :
      Bytes
      → AccountEnvelopePaddingClassV1
      → Bytes
      → Option Bytes
      → Bytes
      → Bytes
      → AccountEnvelopeResult Bytes
  seal_envelope entropy class recipient_key sender_key canonical_header plaintext = do
    sealed ← hpke_seal_invitation c entropy recipient_key canonical_header plaintext
    guard (length sealed.1 == ciphertext_bytes class) internal_crypto_failure
    signature_private_key ← ok_or sender_key private_bundle_invalid
    signature ←
        sign_domain_message c envelope_signature_domain_v1
          (signed_parts canonical_header sealed.0 sealed.1) signature_private_key
    encode_invitation_envelope canonical_header sealed.0 sealed.1 signature

module _ (c : CryptoProvider) (sha256 : Bytes → Bytes) (nz : Normalization) where
  unfoldable pub seal_context_invitation_preview_v1 :
      Bytes
      → Bytes
      → ContextInvitationAuthorityV1
      → AccountEnvelopePrivateBundleAuthorityV1
      → ContextInvitationPreviewV1
      → Bytes
      → Bytes
      → AccountEnvelopeResult Bytes
  seal_context_invitation_preview_v1 test_entropy entropy authority expected_local preview
        recipient_bundle sender_private_bundle =
      do
        validate_invitation authority
        validate_authority expected_local
        guard
            (not (
              names_other expected_local.account_id expected_local.generation
                authority.sender_account_id authority.sender_generation))
            authority_mismatch
        sender ←
            decode_and_validate_private_bundle c test_entropy sender_private_bundle expected_local
              true
        recipient ← verify_canonical_public_bundle_v1 c sha256 recipient_bundle
        guard
            (not (
              names_other recipient.account_id recipient.generation authority.recipient_account_id
                authority.recipient_generation))
            authority_mismatch
        inner ← canonicalize_and_encode_preview nz preview
        plaintext ← padded authority.padding_class inner
        canonical_header ← encode_invitation_header authority
        seal_envelope c entropy authority.padding_class recipient.hpke_public_key
            sender.signature_private_key canonical_header plaintext

  unfoldable pub verify_and_open_context_invitation_preview_v1 :
      Bytes
      → Bytes
      → ExpectedContextInvitationAuthorityV1
      → Bytes
      → Bytes
      → AccountEnvelopeResult ContextInvitationPreviewV1
  verify_and_open_context_invitation_preview_v1 test_entropy envelope expected
        recipient_private_bundle sender_bundle =
      do
        validate_expected_invitation expected
        parsed ← parse_invitation_envelope envelope
        guard (invitation_eq parsed.authority expected.invitation) authority_mismatch
        sender ← verify_canonical_public_bundle_v1 c sha256 sender_bundle
        guard
            (not (
              names_other sender.account_id sender.generation parsed.authority.sender_account_id
                parsed.authority.sender_generation))
            authority_mismatch
        recipient ←
            decode_and_validate_private_bundle c test_entropy recipient_private_bundle
              (recipient_authority expected parsed.authority) false
        verify_domain_signature c envelope_signature_domain_v1
            (signed_parts parsed.canonical_header parsed.encapsulation parsed.ciphertext)
            sender.signature_public_key parsed.signature
        plaintext ←
            hpke_open_invitation c recipient.hpke_private_key parsed.canonical_header
              parsed.encapsulation parsed.ciphertext
        inner ← unpadded parsed.authority.padding_class plaintext
        decode_canonical_preview nz inner
