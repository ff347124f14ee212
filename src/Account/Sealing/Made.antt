-- ===== src/Account/Sealing/Made.antt =====
-- What sealing in rust/src/api/account_envelope/mod.rs has made when it succeeds.
use openmls_dart.Prelude.{
  ◌≡◌, refl, ap, sym, ◌∙◌, Bool, true, not, Option, some, length, Bytes, ◌==◌, ==_iff, ok, ok_or,
  guard, guard-eq-ok, >>=-eq-ok, >>-eq-ok, ok_injective,
}
use openmls_dart.Account.Types.{
  authority_mismatch, private_bundle_invalid, internal_crypto_failure,
  AccountEnvelopePrivateBundleAuthorityV1, validate_authority, DecodedPrivateBundleV1,
}
use openmls_dart.Account.Crypto.{
  CryptoProvider, envelope_signature_domain_v1, sign_domain_message, verify_domain_signature,
  hpke_seal_invitation, hpke_open_invitation, validate_private_bundle_crypto,
}
use openmls_dart.Account.PrivateBundle.{decode_private_bundle}
use openmls_dart.Account.Bundles.{
  AccountEnvelopePublicBundleSummaryV1, decode_and_validate_private_bundle,
  verify_canonical_public_bundle_v1,
}
use openmls_dart.Account.Invitation.{
  ciphertext_bytes, ContextInvitationAuthorityV1, validate_invitation, header_bytes,
  encode_invitation_header, parse_invitation_header, ParsedInvitationEnvelopeV1,
}
use openmls_dart.Account.Invitation.Header.{IsInvitation}
use openmls_dart.Account.Invitation.Envelope.{
  IsEnvelope, envelope_bytes, parse-encode_invitation_envelope,
}
use openmls_dart.Account.Invitation.Preview.{
  ContextInvitationPreviewV1, Normalization, canonicalize_and_encode_preview,
}
use openmls_dart.Account.Sealing.{
  names_other, padded, signed_parts, seal_envelope, seal_context_invitation_preview_v1,
}
use openmls_dart.Account.Sealing.Calls.{
  SignsFor, OpensFor, sign_domain_message-verifies, hpke_seal_invitation-opens,
}

pub header-of :
    (a : ContextInvitationAuthorityV1) (header : Bytes)
    → IsInvitation a
    → encode_invitation_header a ≡ ok header
    → header_bytes a ≡ header
unfolding encode_invitation_header
header-of a header w h = ok_injective (sym (rw w.valid refl) ∙ h)

module _ (c : CryptoProvider) where
  -- What `seal_envelope` has made.
  pub record Sealed (a : ContextInvitationAuthorityV1)
      (sender_public recipient_private header plaintext envelope : Bytes) : Type 0 where
    pub p : ParsedInvitationEnvelopeV1
    pub authority_same : p.authority ≡ a
    pub header_same : p.canonical_header ≡ header
    pub parts : IsEnvelope p
    pub joined : envelope ≡ envelope_bytes p
    pub signed :
        verify_domain_signature c envelope_signature_domain_v1
          (signed_parts p.canonical_header p.encapsulation p.ciphertext)
          sender_public
          p.signature
        ≡ ok tt
    pub opened :
        hpke_open_invitation c recipient_private p.canonical_header p.encapsulation p.ciphertext
        ≡ ok plaintext

  pub seal_envelope-Sealed :
      (entropy : Bytes) (a : ContextInvitationAuthorityV1) (recipient_key : Bytes)
      (sender_key : Option Bytes)
      (header plaintext envelope signing_key sender_public recipient_private : Bytes)
      → seal_envelope c entropy a.padding_class recipient_key sender_key header plaintext
        ≡ ok envelope
      → sender_key ≡ some signing_key
      → SignsFor c signing_key sender_public
      → OpensFor c recipient_private recipient_key
      → length header ≡ 115
      → parse_invitation_header header ≡ ok a
      → Sealed a sender_public recipient_private header plaintext envelope
  unfolding seal_envelope
  seal_envelope-Sealed entropy a recipient_key sender_key header plaintext envelope signing_key
        sender_public recipient_private h key signs opens size parsed =
      let ((encapsulation, ciphertext), sealed, h1) =
        >>=-eq-ok (hpke_seal_invitation c entropy recipient_key header plaintext) _ h in
      let (long, h2) =
        >>-eq-ok
          (guard (length ciphertext == ciphertext_bytes a.padding_class) internal_crypto_failure) _
          h1 in
      let (k, found, h3) = >>=-eq-ok (ok_or sender_key private_bundle_invalid) _ h2 in
      let same : k ≡ signing_key =
        ok_injective (sym found ∙ ap (λ (o : Option Bytes). ok_or o private_bundle_invalid) key) in
      let (signature, signed, h4) =
        >>=-eq-ok
          (sign_domain_message c envelope_signature_domain_v1
            (signed_parts header encapsulation ciphertext) k)
          _ h3 in
      let (encapsulation_length, opened) =
        hpke_seal_invitation-opens c entropy recipient_private recipient_key header plaintext
          encapsulation ciphertext opens sealed in
      let (signature_length, verified) =
        sign_domain_message-verifies c envelope_signature_domain_v1
          (signed_parts header encapsulation ciphertext) signing_key sender_public signature signs
          (ap
              (λ t.
                sign_domain_message c envelope_signature_domain_v1
                  (signed_parts header encapsulation ciphertext) t)
              (sym same)
            ∙ signed) in
      let p : ParsedInvitationEnvelopeV1 = record {
        authority = a;
        canonical_header = header;
        encapsulation = encapsulation;
        ciphertext = ciphertext;
        signature = signature;
      } in
      let w : IsEnvelope p = record {
        header_length = size;
        header_parsed = parsed;
        encapsulation_length = encapsulation_length;
        ciphertext_length =
            (==_iff (length ciphertext) (ciphertext_bytes a.padding_class)).0
              (guard-eq-ok _ _ long);
        signature_length = signature_length;
      } in
      record {
        p = p;
        authority_same = refl;
        header_same = refl;
        parts = w;
        joined = ok_injective (sym h4 ∙ (parse-encode_invitation_envelope p w).0);
        signed = verified;
        opened = opened;
      }

  usable_key :
      (entropy private_bundle : Bytes) (expected : AccountEnvelopePrivateBundleAuthorityV1)
      (d b : DecodedPrivateBundleV1) (active : Bool)
      → decode_and_validate_private_bundle c entropy private_bundle expected active ≡ ok d
      → decode_private_bundle private_bundle ≡ ok b
      → d ≡ b
  unfolding decode_and_validate_private_bundle
  usable_key entropy private_bundle expected d b active h e =
      let (x, decoded, h1) = >>=-eq-ok (decode_private_bundle private_bundle) _ h in
      let (_, h2) = >>-eq-ok (guard _ private_bundle_invalid) _ h1 in
      let (_, h3) = >>-eq-ok (guard _ private_bundle_invalid) _ h2 in
      let (_, h4) = >>-eq-ok (validate_private_bundle_crypto c entropy x) _ h3 in
      sym (ok_injective h4) ∙ ok_injective (sym decoded ∙ e)

module _ (c : CryptoProvider) (sha256 : Bytes → Bytes) (nz : Normalization) where
  -- What sealing has computed before it encrypts.
  pub record Prepared (a : ContextInvitationAuthorityV1) (entropy : Bytes)
      (preview : ContextInvitationPreviewV1)
      (recipient_bundle sender_private_bundle envelope : Bytes) : Type 0 where
    pub sender : DecodedPrivateBundleV1
    pub sender_decoded :
        (b : DecodedPrivateBundleV1)
        → decode_private_bundle sender_private_bundle ≡ ok b
        → sender ≡ b
    pub recipient : AccountEnvelopePublicBundleSummaryV1
    pub recipient_verified :
        verify_canonical_public_bundle_v1 c sha256 recipient_bundle ≡ ok recipient
    pub inner : Bytes
    pub encoded : canonicalize_and_encode_preview nz preview ≡ ok inner
    pub plaintext : Bytes
    pub is_padded : padded a.padding_class inner ≡ ok plaintext
    pub header : Bytes
    pub header_encoded : encode_invitation_header a ≡ ok header
    pub rest :
        seal_envelope c entropy a.padding_class recipient.hpke_public_key
          sender.signature_private_key header plaintext
        ≡ ok envelope

  pub seal-Prepared :
      (test_entropy entropy : Bytes) (a : ContextInvitationAuthorityV1)
      (local : AccountEnvelopePrivateBundleAuthorityV1) (preview : ContextInvitationPreviewV1)
      (recipient_bundle sender_private_bundle envelope : Bytes)
      → seal_context_invitation_preview_v1 c sha256 nz test_entropy entropy a local preview
          recipient_bundle sender_private_bundle
        ≡ ok envelope
      → Prepared a entropy preview recipient_bundle sender_private_bundle envelope
  unfolding seal_context_invitation_preview_v1
  seal-Prepared test_entropy entropy a local preview recipient_bundle sender_private_bundle envelope
        h =
      let (_, h1) = >>-eq-ok (validate_invitation a) _ h in
      let (_, h2) = >>-eq-ok (validate_authority local) _ h1 in
      let (_, h3) =
        >>-eq-ok
          (guard
            (not (
              names_other local.account_id local.generation a.sender_account_id
                a.sender_generation))
            authority_mismatch)
          _ h2 in
      let (sender, usable, h4) =
        >>=-eq-ok
          (decode_and_validate_private_bundle c test_entropy sender_private_bundle local true) _
          h3 in
      let (recipient, verified, h5) =
        >>=-eq-ok (verify_canonical_public_bundle_v1 c sha256 recipient_bundle) _ h4 in
      let (_, h6) =
        >>-eq-ok
          (guard
            (not (
              names_other recipient.account_id recipient.generation a.recipient_account_id
                a.recipient_generation))
            authority_mismatch)
          _ h5 in
      let (inner, encoded, h7) = >>=-eq-ok (canonicalize_and_encode_preview nz preview) _ h6 in
      let (plaintext, is_padded, h8) = >>=-eq-ok (padded a.padding_class inner) _ h7 in
      let (header, header_encoded, h9) = >>=-eq-ok (encode_invitation_header a) _ h8 in
      record {
        sender = sender;
        recipient = recipient;
        recipient_verified = verified;
        inner = inner;
        encoded = encoded;
        sender_decoded =
            λ b e. usable_key c test_entropy sender_private_bundle local sender b true usable e;
        plaintext = plaintext;
        is_padded = is_padded;
        header = header;
        header_encoded = header_encoded;
        rest = h9;
      }
