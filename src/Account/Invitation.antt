-- ===== src/Account/Invitation.antt =====
-- Context invitations: the authority and padding class of rust/src/api/account_envelope/types.rs, and
-- the header and the envelope of rust/src/api/account_envelope/invitation.rs. A `HeaderCursor` reads
-- as the `Cursor` of codec.rs does.
pub mod Header
pub mod Slices
pub mod Envelope
pub mod PreviewCursor
pub mod Preview
use openmls_dart.Prelude.{
  ℕ, ◌+◌, ◌-◌, ◌*◌, ◌^◌, Bool, true, false, not, ◌||◌, ◌&&◌, List, [], ◌∷◌, ◌++◌, length, take,
  drop, Bytes, bytes_eq, ltb, ◌==◌, to_be_bytes, from_be_bytes, Result, ok, err, guard, map_err,
  if◌then◌else◌,
}
use openmls_dart.Prelude
use openmls_dart.Account.Types.{
  AccountEnvelopeErrorCodeV1, AccountEnvelopeResult, authority_mismatch, unsupported_version,
  non_canonical_encoding, bounds_exceeded, format_version_v1, key_bytes, signature_bytes,
  max_web_safe_integer, is_canonical_uuid,
}
use openmls_dart.Account.Cursor.{
  Reader, ◌>>=◌, ◌>>◌, pure, lift, check, read_array, read_u8, read_u64, remaining, is_finished,
}

abbrev pub invitation_header_bytes : ℕ
invitation_header_bytes = 115

abbrev pub invitation_envelope_max_bytes : ℕ
invitation_envelope_max_bytes = 4096

abbrev pub invitation_canonical_envelope_max_bytes : ℕ
invitation_canonical_envelope_max_bytes = 2277

abbrev pub invitation_max_lifetime_ms : ℕ
invitation_max_lifetime_ms = 7 * 24 * 60 * 60 * 1000

abbrev pub context_invitation_purpose_v1 : ℕ
context_invitation_purpose_v1 = 1

pub data AccountEnvelopePaddingClassV1 : Type 0 where
  bytes512 bytes1024 bytes2048 : AccountEnvelopePaddingClassV1

unfoldable pub padding_value : AccountEnvelopePaddingClassV1 → ℕ
padding_value bytes512 = 1
padding_value bytes1024 = 2
padding_value bytes2048 = 3

unfoldable pub padding_from_u8 : ℕ → AccountEnvelopeResult AccountEnvelopePaddingClassV1
padding_from_u8 value =
    if value == 1
    then ok bytes512
    else if value == 2
    then ok bytes1024
    else if value == 3
    then ok bytes2048
    else err non_canonical_encoding

abbrev pub plaintext_bytes : AccountEnvelopePaddingClassV1 → ℕ
plaintext_bytes bytes512 = 512
plaintext_bytes bytes1024 = 1024
plaintext_bytes bytes2048 = 2048

abbrev pub ciphertext_bytes : AccountEnvelopePaddingClassV1 → ℕ
ciphertext_bytes class = plaintext_bytes class + 16

pub record ContextInvitationAuthorityV1 : Type 0 where
  pub envelope_id : Bytes
  pub invite_id : Bytes
  pub sender_account_id : Bytes
  pub sender_generation : ℕ
  pub recipient_account_id : Bytes
  pub recipient_generation : ℕ
  pub authority_attempt : ℕ
  pub relay_slot_version : ℕ
  pub server_created_at_unix_ms : ℕ
  pub server_expires_at_unix_ms : ℕ
  pub padding_class : AccountEnvelopePaddingClassV1

pub record ExpectedContextInvitationAuthorityV1 : Type 0 where
  pub invitation : ContextInvitationAuthorityV1
  pub local_root_installation_id : Bytes
  pub local_root_authority_generation : ℕ

abbrev pub is_invalid_invitation : ContextInvitationAuthorityV1 → ℕ → Bool
is_invalid_invitation a lifetime =
    not (is_canonical_uuid a.envelope_id)
    || (not (is_canonical_uuid a.invite_id)
        || (not (is_canonical_uuid a.sender_account_id)
            || (not (is_canonical_uuid a.recipient_account_id)
                || (a.sender_generation == 0
                    || (ltb max_web_safe_integer a.sender_generation
                        || (a.recipient_generation == 0
                            || (ltb max_web_safe_integer a.recipient_generation
                                || (a.authority_attempt == 0
                                    || (ltb max_web_safe_integer a.authority_attempt
                                        || (not (a.relay_slot_version == 1)
                                            || (a.server_created_at_unix_ms == 0
                                                || (ltb max_web_safe_integer
                                                      a.server_created_at_unix_ms
                                                    || (ltb max_web_safe_integer
                                                          a.server_expires_at_unix_ms
                                                        || (lifetime == 0
                                                            || ltb invitation_max_lifetime_ms
                                                            lifetime))))))))))))))

-- `ContextInvitationAuthorityV1::validate`. The subtraction is checked first.
unfoldable pub validate_invitation : ContextInvitationAuthorityV1 → AccountEnvelopeResult (Unit {0})
validate_invitation a =
    Prelude.◌>>◌
      (guard (not (ltb a.server_expires_at_unix_ms a.server_created_at_unix_ms)) authority_mismatch)
      (guard
        (not (is_invalid_invitation a (a.server_expires_at_unix_ms - a.server_created_at_unix_ms)))
        authority_mismatch)

-- `ExpectedContextInvitationAuthorityV1::validate`.
unfoldable pub validate_expected_invitation :
    ExpectedContextInvitationAuthorityV1 → AccountEnvelopeResult (Unit {0})
validate_expected_invitation e = Prelude.◌>>◌ (validate_invitation e.invitation) (
    guard
      (not (
        not (is_canonical_uuid e.local_root_installation_id)
        || (e.local_root_authority_generation == 0
            || ltb max_web_safe_integer e.local_root_authority_generation)))
      authority_mismatch)

abbrev pub header_bytes : ContextInvitationAuthorityV1 → Bytes
header_bytes a =
    (format_version_v1 ∷ [])
    ++ (a.envelope_id
        ++ ((context_invitation_purpose_v1 ∷ [])
            ++ (a.sender_account_id
                ++ (to_be_bytes 8 a.sender_generation
                    ++ (a.recipient_account_id
                        ++ (to_be_bytes 8 a.recipient_generation
                            ++ (a.invite_id
                                ++ (to_be_bytes 8 a.authority_attempt
                                    ++ (to_be_bytes 8 a.relay_slot_version
                                        ++ (to_be_bytes 8 a.server_created_at_unix_ms
                                            ++ (to_be_bytes 8 a.server_expires_at_unix_ms
                                                ++ padding_value a.padding_class ∷ [])))))))))))

unfoldable pub encode_invitation_header : ContextInvitationAuthorityV1 → AccountEnvelopeResult Bytes
encode_invitation_header authority =
    Prelude.◌>>◌ (validate_invitation authority) (ok (header_bytes authority))

-- What `parse_invitation_header` does with its cursor. Every failed check on the authority is
-- `NonCanonicalEncoding` here.
unfoldable pub read_invitation_header : Reader ContextInvitationAuthorityV1
read_invitation_header = do
  version ← read_u8
  check (version == format_version_v1) unsupported_version
  envelope_id ← read_array 16
  purpose ← read_u8
  check (purpose == context_invitation_purpose_v1) non_canonical_encoding
  sender_account_id ← read_array 16
  sender_generation ← read_u64
  recipient_account_id ← read_array 16
  recipient_generation ← read_u64
  invite_id ← read_array 16
  authority_attempt ← read_u64
  relay_slot_version ← read_u64
  server_created_at_unix_ms ← read_u64
  server_expires_at_unix_ms ← read_u64
  raw_class ← read_u8
  padding_class ← lift (padding_from_u8 raw_class)
  let authority : ContextInvitationAuthorityV1 = record {
    envelope_id = envelope_id;
    invite_id = invite_id;
    sender_account_id = sender_account_id;
    sender_generation = sender_generation;
    recipient_account_id = recipient_account_id;
    recipient_generation = recipient_generation;
    authority_attempt = authority_attempt;
    relay_slot_version = relay_slot_version;
    server_created_at_unix_ms = server_created_at_unix_ms;
    server_expires_at_unix_ms = server_expires_at_unix_ms;
    padding_class = padding_class;
  }
  rest ← remaining
  check (is_finished rest) non_canonical_encoding
  lift (
      map_err (λ (e : AccountEnvelopeErrorCodeV1). non_canonical_encoding)
        (validate_invitation authority))
  pure authority

unfoldable pub parse_invitation_header : Bytes → AccountEnvelopeResult ContextInvitationAuthorityV1
parse_invitation_header input = Prelude.◌>>=◌ (read_invitation_header input) (λ r. ok r.0)

pub record ParsedInvitationEnvelopeV1 : Type 0 where
  pub authority : ContextInvitationAuthorityV1
  pub canonical_header : Bytes
  pub encapsulation : Bytes
  pub ciphertext : Bytes
  pub signature : Bytes

-- A length that is no `u16` is above the maximum of the whole, with the same error.
unfoldable pub encode_invitation_envelope :
    Bytes → Bytes → Bytes → Bytes → AccountEnvelopeResult Bytes
encode_invitation_envelope canonical_header encapsulation ciphertext signature =
    Prelude.◌>>◌ (guard (ltb (length ciphertext) 65536) bounds_exceeded) (
      Prelude.◌>>◌
        (guard
          (not (
            ltb invitation_canonical_envelope_max_bytes
              (invitation_header_bytes + (key_bytes + 2 + length ciphertext + signature_bytes))))
          bounds_exceeded)
        (ok (
          canonical_header
          ++ (encapsulation ++ (to_be_bytes 2 (length ciphertext) ++ (ciphertext ++ signature))))))

-- What `parse_invitation_envelope` does after its checks of the length.
abbrev pub split_envelope : Bytes → AccountEnvelopeResult ParsedInvitationEnvelopeV1
split_envelope input = Prelude.◌>>=◌ (parse_invitation_header (take 115 input)) (λ authority.
    let n = from_be_bytes (take 2 (drop 147 input)) in
    Prelude.◌>>◌ (guard (n == ciphertext_bytes authority.padding_class) non_canonical_encoding) (
      Prelude.◌>>◌ (guard (149 + n + signature_bytes == length input) non_canonical_encoding) (
        ok (record {
          authority = authority;
          canonical_header = take 115 input;
          encapsulation = take 32 (drop 115 input);
          ciphertext = take n (drop 149 input);
          signature = take 64 (drop (149 + n) input);
        }))))

unfoldable pub parse_invitation_envelope : Bytes → AccountEnvelopeResult ParsedInvitationEnvelopeV1
parse_invitation_envelope input =
    Prelude.◌>>◌ (guard (not (ltb invitation_envelope_max_bytes (length input))) bounds_exceeded) (
      Prelude.◌>>◌
        (guard
          (not (
            ltb invitation_canonical_envelope_max_bytes (length input)
            || ltb (length input) (invitation_header_bytes + key_bytes + 2 + signature_bytes)))
          non_canonical_encoding)
        (split_envelope input))
