-- ===== src/Tests/Invitation.antt =====
-- An invitation that an account sends to itself: rust/src/api/account_envelope/invitation.rs and
-- rust/src/api/account_envelope/mod.rs with the provider for tests.
use mathlib.Core.Path.{subst}
use openmls_dart.Prelude.{
  ◌+◌, ◌-◌, ◌≡◌, refl, ap, Bool, true, false, Option, some, none, [], ◌∷◌, ◌++◌, length,
  length-append, take, take-append, All, IsByte, Bytes, bytes_eq, bytes_eq_refl, replicate,
  to_be_bytes, from_be_bytes, all, ok, err, ok_or, ok_injective, if◌then◌else◌, arith,
}
use openmls_dart.Account.Types.{validate_authority, is_canonical_uuid, plaintext_schema_invalid}
use openmls_dart.Account.Text.{is_scalar, utf8_char}
use openmls_dart.Account.Cursor.{read_u8, read_u64, read_array, is_finished}
use openmls_dart.Account.Crypto.{
  HpkeCiphertext, transcript, exact_key, exact_signature, sign_domain_message, self_test_signature,
  validate_private_bundle_crypto, envelope_signature_domain_v1, hpke_seal_invitation, joined,
}
use openmls_dart.Account.Bundles.{
  authority_eq, decode_and_validate_private_bundle, verify_canonical_public_bundle_v1,
}
use openmls_dart.Account.Continuity.Chain.{summary_of, verify_canonical-IsVerified}
use openmls_dart.Account.Invitation.{
  bytes512, padding_value, padding_from_u8, ciphertext_bytes, ContextInvitationAuthorityV1,
  ExpectedContextInvitationAuthorityV1, validate_invitation, validate_expected_invitation,
  encode_invitation_header, read_invitation_header, parse_invitation_header,
  ParsedInvitationEnvelopeV1, encode_invitation_envelope, parse_invitation_envelope,
}
use openmls_dart.Account.Invitation.Header.{IsInvitation, parse_invitation_header-eq-ok}
use openmls_dart.Account.Invitation.Envelope.{IsEnvelope, parse_invitation_envelope-eq-ok}
use openmls_dart.Account.Invitation.Preview.{
  ContextInvitationPreviewV1, Normalization, is_unicode_17_white_space, trim_start, trim_end,
  reject_folded, write_bounded_string, normalize_bounded_text, canonicalize_and_encode_preview,
  decode_canonical_preview,
}
use openmls_dart.Account.Invitation.Preview.Normalized.{IsNormalization}
use openmls_dart.Account.Invitation.Preview.Opening.{
  normalized, is_canonical_preview, decode-canonicalize_preview,
}
use openmls_dart.Account.Sealing.{
  padded, seal_envelope, seal_context_invitation_preview_v1,
  verify_and_open_context_invitation_preview_v1,
}
use openmls_dart.Account.Sealing.Calls.{SignsFor, OpensFor}
use openmls_dart.Account.Sealing.RoundTrip.{IsSender, IsRecipient, open-seal}
use openmls_dart.Account.Sealing.Size.{seal-length}
use openmls_dart.Tests.Envelope.{
  authority, first_private, first_private_bytes, first, first_bytes, first_private_decoded,
  first-IsVerified,
}
use openmls_dart.Tests.Envelope.Toy.{account, toy, toy_signature, toy_sha256}

abbrev invitation : ContextInvitationAuthorityV1
invitation = record {
  envelope_id = account;
  invite_id = account;
  sender_account_id = account;
  sender_generation = 1;
  recipient_account_id = account;
  recipient_generation = 1;
  authority_attempt = 1;
  relay_slot_version = 1;
  server_created_at_unix_ms = 5;
  server_expires_at_unix_ms = 9;
  padding_class = bytes512;
}

abbrev one : Bytes
one = 0 ∷ 0 ∷ 0 ∷ 0 ∷ 0 ∷ 0 ∷ 0 ∷ 1 ∷ []

abbrev header : Bytes
header =
    1 ∷ account
    ++ (1 ∷ account
        ++ (one
            ++ (account
                ++ (one
                    ++ (account
                        ++ (one
                            ++ (one
                                ++ (0 ∷ 0 ∷ 0 ∷ 0 ∷ 0 ∷ 0 ∷ 0 ∷ 5 ∷ 0 ∷ 0 ∷ 0 ∷ 0 ∷ 0 ∷ 0 ∷ 0 ∷ 9
                                    ∷ 1 ∷ []))))))))

invitation-IsInvitation : IsInvitation invitation
unfolding validate_invitation is_canonical_uuid
invitation-IsInvitation = record {
  envelope_length = refl;
  invite_length = refl;
  sender_length = refl;
  recipient_length = refl;
  valid = refl;
}

header_parsed : parse_invitation_header header ≡ ok invitation
unfolding parse_invitation_header read_invitation_header read_u8 read_u64 read_array from_be_bytes
    is_finished padding_from_u8 validate_invitation is_canonical_uuid
header_parsed = refl

header-IsByte : All IsByte header
header-IsByte = ground arith

parse_invitation_header-eq-ok_example :
    (encode_invitation_header invitation ≡ ok header) × IsInvitation invitation
parse_invitation_header-eq-ok_example =
    parse_invitation_header-eq-ok header invitation header-IsByte header_parsed

abbrev quick : Normalization
quick = record { nfc = λ cs. cs; is_nfc_quick = λ cs. true }

quick-IsNormalization : IsNormalization quick
quick-IsNormalization = record { nfc_scalar = λ cs h. h; nfc_nonempty = λ cs h. h }

-- " Hi", with one tag "R".
abbrev preview : ContextInvitationPreviewV1
preview = record { title = some (32 ∷ 72 ∷ 105 ∷ []); tags = (82 ∷ []) ∷ [] }

abbrev inner : Bytes
inner = 1 ∷ 0 ∷ 2 ∷ 72 ∷ 105 ∷ 1 ∷ 0 ∷ 1 ∷ 82 ∷ []

preview_encoded : canonicalize_and_encode_preview quick preview ≡ ok inner
unfolding canonicalize_and_encode_preview normalize_bounded_text trim_start trim_end
    is_unicode_17_white_space reject_folded write_bounded_string utf8_char to_be_bytes
preview_encoded = refl

abbrev plaintext : Bytes
plaintext = 0 ∷ 9 ∷ inner ++ replicate 501 0

abbrev ciphertext : Bytes
ciphertext = plaintext ++ replicate 16 0

abbrev signature : Bytes
signature =
    toy_signature
      (envelope_signature_domain_v1
        ++ joined (header ∷ replicate 32 22 ∷ (2 ∷ 16 ∷ []) ∷ ciphertext ∷ []))
      (replicate 32 24)

abbrev envelope : Bytes
envelope = header ++ (replicate 32 22 ++ (2 ∷ 16 ∷ [] ++ (ciphertext ++ signature)))

abbrev parsed : ParsedInvitationEnvelopeV1
parsed = record {
  authority = invitation;
  canonical_header = header;
  encapsulation = replicate 32 22;
  ciphertext = ciphertext;
  signature = signature;
}

envelope_parsed : parse_invitation_envelope envelope ≡ ok parsed
unfolding parse_invitation_envelope parse_invitation_header read_invitation_header read_u8 read_u64
    read_array from_be_bytes is_finished padding_from_u8 validate_invitation is_canonical_uuid
envelope_parsed = refl

preview_text : (all is_scalar (32 ∷ 72 ∷ 105 ∷ []) ≡ true) × (all is_scalar (82 ∷ []) ≡ true)
unfolding is_scalar
preview_text = (refl, refl)

decode-canonicalize_preview_example :
    (n : ContextInvitationPreviewV1) × (normalized quick preview ≡ ok n)
    × (decode_canonical_preview quick inner
        ≡ (if is_canonical_preview quick n then ok n else err plaintext_schema_invalid))
decode-canonicalize_preview_example =
    decode-canonicalize_preview quick preview inner quick-IsNormalization preview_text.0
      (preview_text.1, tt) preview_encoded

envelope-IsByte : All IsByte envelope
envelope-IsByte = ground arith

parse_invitation_envelope-eq-ok_example :
    (encode_invitation_envelope header (replicate 32 22) ciphertext signature ≡ ok envelope)
    × IsEnvelope parsed
    × (length envelope ≡ 213 + ciphertext_bytes bytes512)
parse_invitation_envelope-eq-ok_example =
    parse_invitation_envelope-eq-ok envelope parsed envelope-IsByte envelope_parsed

toy-SignsFor : (key : Bytes) → SignsFor toy key key
toy-SignsFor key = record {
  verifies = λ message made h.
      subst (λ t. bytes_eq t (toy_signature message key) ≡ true)
        (ok_injective (ap (λ (o : Option Bytes). ok_or o tt) h))
        (bytes_eq_refl (toy_signature message key));
}

untag :
    (plain : Bytes) → take (length (plain ++ replicate 16 0) - 16) (plain ++ replicate 16 0) ≡ plain
untag plain =
    let size : length plain + 16 - 16 ≡ length plain = omega arith in
    rw (length-append plain (replicate 16 0), size) (take-append plain (replicate 16 0))

toy-OpensFor : (key : Bytes) → OpensFor toy key key
toy-OpensFor key = record {
  opens = λ entropy info aad plain sealed h.
      subst
        (λ t.
          (if bytes_eq t.kem_output key
            then some (take (length t.ciphertext - 16) t.ciphertext)
            else none)
          ≡ some plain)
        (ok_injective (ap (λ (o : Option HpkeCiphertext). ok_or o tt) h))
        (rw (bytes_eq_refl key) (ap some (untag plain)));
}

abbrev expected : ExpectedContextInvitationAuthorityV1
expected = record {
  invitation = invitation;
  local_root_installation_id = account;
  local_root_authority_generation = 7;
}

expected_valid : validate_expected_invitation expected ≡ ok tt
unfolding validate_expected_invitation validate_invitation is_canonical_uuid
expected_valid = refl

first_verified :
    verify_canonical_public_bundle_v1 toy toy_sha256 first_bytes
    ≡ ok (summary_of toy toy_sha256 first_bytes first)
first_verified = verify_canonical-IsVerified toy toy_sha256 first_bytes first first-IsVerified

first_usable :
    (active : Bool)
    → decode_and_validate_private_bundle toy [] first_private_bytes authority active
      ≡ ok first_private
unfolding decode_and_validate_private_bundle validate_private_bundle_crypto self_test_signature
    authority_eq bytes_eq
first_usable true = rw first_private_decoded refl
first_usable false = rw first_private_decoded refl

sender : IsSender toy toy_sha256 invitation first_private_bytes first_bytes
sender = record {
  bundle = first_private;
  decoded = first_private_decoded;
  signing_key = replicate 32 24;
  has_key = refl;
  summary = summary_of toy toy_sha256 first_bytes first;
  verified = first_verified;
  account = refl;
  generation = refl;
  signs = toy-SignsFor (replicate 32 24);
}

recipient : IsRecipient toy toy_sha256 [] expected first_private_bytes first_bytes
recipient = record {
  bundle = first_private;
  usable = first_usable false;
  summary = summary_of toy toy_sha256 first_bytes first;
  verified = first_verified;
  opens = toy-OpensFor (replicate 32 22);
}

invitation_sealed :
    seal_context_invitation_preview_v1 toy toy_sha256 quick [] [] invitation authority preview
      first_bytes first_private_bytes
    ≡ ok envelope
unfolding seal_context_invitation_preview_v1 seal_envelope hpke_seal_invitation exact_key
    exact_signature sign_domain_message transcript encode_invitation_header
    encode_invitation_envelope padded validate_invitation validate_authority is_canonical_uuid
    to_be_bytes bytes_eq padding_value
invitation_sealed = rw (first_usable true, first_verified, preview_encoded) refl

open-seal_example :
    (n : ContextInvitationPreviewV1) × (normalized quick preview ≡ ok n)
    × (verify_and_open_context_invitation_preview_v1 toy toy_sha256 quick [] envelope expected
          first_private_bytes first_bytes
        ≡ (if is_canonical_preview quick n then ok n else err plaintext_schema_invalid))
open-seal_example =
    open-seal toy toy_sha256 quick [] [] [] expected authority preview first_private_bytes
      first_bytes first_private_bytes first_bytes envelope quick-IsNormalization preview_text.0
      (preview_text.1, tt) invitation-IsInvitation expected_valid sender recipient invitation_sealed

seal-length_example : length envelope ≡ 213 + ciphertext_bytes bytes512
seal-length_example =
    seal-length toy toy_sha256 quick [] [] invitation authority preview first_bytes
      first_private_bytes envelope invitation-IsInvitation invitation_sealed
