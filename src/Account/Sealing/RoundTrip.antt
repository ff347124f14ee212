-- ===== src/Account/Sealing/RoundTrip.antt =====
-- An invitation that rust/src/api/account_envelope/mod.rs seals, opened by its recipient.
use mathlib.Core.Path.{subst}
use openmls_dart.Prelude.{
  ℕ, ◌≡◌, refl, ap, sym, ◌∙◌, true, false, not, some, length, All, Bytes, bytes_eq_refl, ==_refl,
  ok, err, guard-true, if◌then◌else◌, ok_injective,
}
use openmls_dart.Account.Types.{
  authority_mismatch, plaintext_schema_invalid, AccountEnvelopePrivateBundleAuthorityV1,
  DecodedPrivateBundleV1,
}
use openmls_dart.Account.Crypto.{
  CryptoProvider, envelope_signature_domain_v1, verify_domain_signature, hpke_open_invitation,
}
use openmls_dart.Account.PrivateBundle.{decode_private_bundle}
use openmls_dart.Account.Bundles.{
  AccountEnvelopePublicBundleSummaryV1, decode_and_validate_private_bundle,
  verify_canonical_public_bundle_v1,
}
use openmls_dart.Account.Invitation.{
  padding_value, ContextInvitationAuthorityV1, ExpectedContextInvitationAuthorityV1,
  validate_expected_invitation, parse_invitation_header, ParsedInvitationEnvelopeV1,
  parse_invitation_envelope,
}
use openmls_dart.Account.Invitation.Header.{IsInvitation, length-header_bytes, parse-header_bytes}
use openmls_dart.Account.Invitation.Envelope.{parse-encode_invitation_envelope}
use openmls_dart.Account.Invitation.Preview.{
  ContextInvitationPreviewV1, Normalization, decode_canonical_preview,
}
use openmls_dart.Account.Invitation.Preview.Normalized.{IsNormalization, IsText, TitleIsText}
use openmls_dart.Account.Invitation.Preview.Opening.{
  normalized, is_canonical_preview, canonicalize-Encodes, decode-canonicalize_preview,
}
use openmls_dart.Account.Sealing.{
  invitation_eq, names_other, unpadded, signed_parts, recipient_authority,
  seal_context_invitation_preview_v1, verify_and_open_context_invitation_preview_v1,
}
use openmls_dart.Account.Sealing.Calls.{SignsFor, OpensFor, padded-unpadded}
use openmls_dart.Account.Sealing.Made.{Sealed, seal_envelope-Sealed, seal-Prepared, header-of}

invitation_eq_refl : (a : ContextInvitationAuthorityV1) → invitation_eq a a ≡ true
unfolding invitation_eq
invitation_eq_refl a =
    rw
      (
        bytes_eq_refl a.envelope_id,
        bytes_eq_refl a.invite_id,
        bytes_eq_refl a.sender_account_id,
        bytes_eq_refl a.recipient_account_id,
        ==_refl a.sender_generation,
        ==_refl a.recipient_generation,
        ==_refl a.authority_attempt,
        ==_refl a.relay_slot_version,
        ==_refl a.server_created_at_unix_ms,
        ==_refl a.server_expires_at_unix_ms,
        ==_refl (padding_value a.padding_class),
      )
      refl

names_same :
    (a : Bytes) (g : ℕ) (b : Bytes) (h : ℕ) → a ≡ b → g ≡ h → not (names_other a g b h) ≡ true
names_same a g b h e f = rw (e, f, bytes_eq_refl b, ==_refl h) refl

module _ (c : CryptoProvider) (sha256 : Bytes → Bytes) where
  -- The sender: its private bundle has a signing key, which signs for the key in its verified public
  -- bundle of the account and the generation that the authority names.
  pub record IsSender (a : ContextInvitationAuthorityV1) (private_bundle public_bundle : Bytes)
      : Type 0 where
    pub bundle : DecodedPrivateBundleV1
    pub decoded : decode_private_bundle private_bundle ≡ ok bundle
    pub signing_key : Bytes
    pub has_key : bundle.signature_private_key ≡ some signing_key
    pub summary : AccountEnvelopePublicBundleSummaryV1
    pub verified : verify_canonical_public_bundle_v1 c sha256 public_bundle ≡ ok summary
    pub account : summary.account_id ≡ a.sender_account_id
    pub generation : summary.generation ≡ a.sender_generation
    pub signs : SignsFor c signing_key summary.signature_public_key

  -- The recipient: its private bundle passes the checks of opening, and opens what is sealed for the
  -- key in its verified public bundle.
  pub record IsRecipient (entropy : Bytes) (e : ExpectedContextInvitationAuthorityV1)
      (private_bundle public_bundle : Bytes) : Type 0 where
    pub bundle : DecodedPrivateBundleV1
    pub usable :
        decode_and_validate_private_bundle c entropy private_bundle
          (recipient_authority e e.invitation)
          false
        ≡ ok bundle
    pub summary : AccountEnvelopePublicBundleSummaryV1
    pub verified : verify_canonical_public_bundle_v1 c sha256 public_bundle ≡ ok summary
    pub opens : OpensFor c bundle.hpke_private_key summary.hpke_public_key

module _ (c : CryptoProvider) (sha256 : Bytes → Bytes) (nz : Normalization) where
  opens_parts :
      (entropy envelope recipient_private_bundle sender_bundle plaintext inner : Bytes)
      (e : ExpectedContextInvitationAuthorityV1) (p : ParsedInvitationEnvelopeV1)
      (sender : AccountEnvelopePublicBundleSummaryV1) (recipient : DecodedPrivateBundleV1)
      → validate_expected_invitation e ≡ ok tt
      → parse_invitation_envelope envelope ≡ ok p
      → p.authority ≡ e.invitation
      → verify_canonical_public_bundle_v1 c sha256 sender_bundle ≡ ok sender
      → sender.account_id ≡ p.authority.sender_account_id
      → sender.generation ≡ p.authority.sender_generation
      → decode_and_validate_private_bundle c entropy recipient_private_bundle
          (recipient_authority e p.authority)
          false
        ≡ ok recipient
      → verify_domain_signature c envelope_signature_domain_v1
          (signed_parts p.canonical_header p.encapsulation p.ciphertext)
          sender.signature_public_key
          p.signature
        ≡ ok tt
      → hpke_open_invitation c recipient.hpke_private_key p.canonical_header p.encapsulation
          p.ciphertext
        ≡ ok plaintext
      → unpadded p.authority.padding_class plaintext ≡ ok inner
      → verify_and_open_context_invitation_preview_v1 c sha256 nz entropy envelope e
          recipient_private_bundle sender_bundle
        ≡ decode_canonical_preview nz inner
  unfolding verify_and_open_context_invitation_preview_v1
  opens_parts entropy envelope recipient_private_bundle sender_bundle plaintext inner e p sender
        recipient valid parsed same verified account generation usable signed opened found =
      rw (
        valid,
        parsed,
        guard-true (invitation_eq p.authority e.invitation) authority_mismatch
            (ap (λ t. invitation_eq t e.invitation) same ∙ invitation_eq_refl e.invitation),
        verified,
        guard-true
            (not (
              names_other sender.account_id sender.generation p.authority.sender_account_id
                p.authority.sender_generation))
            authority_mismatch (names_same _ _ _ _ account generation),
        usable,
        signed,
        opened,
        found,
      )

  opens-Sealed :
      (entropy : Bytes) (e : ExpectedContextInvitationAuthorityV1)
      (sender_private sender_public recipient_private recipient_public envelope header plaintext
        inner : Bytes)
      → validate_expected_invitation e ≡ ok tt
      → (s : IsSender c sha256 e.invitation sender_private sender_public)
      → (r : IsRecipient c sha256 entropy e recipient_private recipient_public)
      → Sealed c e.invitation s.summary.signature_public_key r.bundle.hpke_private_key header
          plaintext envelope
      → unpadded e.invitation.padding_class plaintext ≡ ok inner
      → verify_and_open_context_invitation_preview_v1 c sha256 nz entropy envelope e
          recipient_private sender_public
        ≡ decode_canonical_preview nz inner
  opens-Sealed entropy e sender_private sender_public recipient_private recipient_public envelope
        header plaintext inner valid s r made found =
      let same = made.authority_same in
      opens_parts entropy envelope recipient_private sender_public plaintext inner e made.p
        s.summary r.bundle valid
        (ap parse_invitation_envelope made.joined
          ∙ (parse-encode_invitation_envelope made.p made.parts).1)
        same s.verified
        (s.account ∙ ap (λ (t : ContextInvitationAuthorityV1). t.sender_account_id) (sym same))
        (s.generation ∙ ap (λ (t : ContextInvitationAuthorityV1). t.sender_generation) (sym same))
        (ap
            (λ (t : ContextInvitationAuthorityV1).
              decode_and_validate_private_bundle c entropy recipient_private
                (recipient_authority e t) false)
            same
          ∙ r.usable)
        made.signed made.opened
        (ap (λ (t : ContextInvitationAuthorityV1). unpadded t.padding_class plaintext) same ∙ found)

  -- A sealed invitation is opened by its recipient under the same authority: what comes out is the
  -- preview in its normalized form if `canonical_str` accepts every text of that form, and the error
  -- of an invalid plaintext otherwise. The sender's and the recipient's bundles are those of the
  -- authority, their key pairs belong together as the provider documents it, the texts are texts, and
  -- normalization gives texts for texts and none that is empty for one that is not.
  pub open-seal :
      (test_entropy entropy open_entropy : Bytes) (e : ExpectedContextInvitationAuthorityV1)
      (local : AccountEnvelopePrivateBundleAuthorityV1) (preview : ContextInvitationPreviewV1)
      (sender_private sender_public recipient_private recipient_public envelope : Bytes)
      → IsNormalization nz
      → TitleIsText preview.title
      → All IsText preview.tags
      → IsInvitation e.invitation
      → validate_expected_invitation e ≡ ok tt
      → IsSender c sha256 e.invitation sender_private sender_public
      → IsRecipient c sha256 open_entropy e recipient_private recipient_public
      → seal_context_invitation_preview_v1 c sha256 nz test_entropy entropy e.invitation local
          preview recipient_public sender_private
        ≡ ok envelope
      → (n : ContextInvitationPreviewV1) × (normalized nz preview ≡ ok n)
        × (verify_and_open_context_invitation_preview_v1 c sha256 nz open_entropy envelope e
              recipient_private sender_public
            ≡ (if is_canonical_preview nz n then ok n else err plaintext_schema_invalid))
  open-seal test_entropy entropy open_entropy e local preview sender_private sender_public
        recipient_private recipient_public envelope lawful title_text tags_text w valid s r h =
      let a = e.invitation in
      let m =
        seal-Prepared c sha256 nz test_entropy entropy a local preview recipient_public
          sender_private envelope h in
      let header_same = header-of a m.header w m.header_encoded in
      let same_recipient : m.recipient ≡ r.summary =
        ok_injective (sym m.recipient_verified ∙ r.verified) in
      let key =
        ap (λ (d : DecodedPrivateBundleV1). d.signature_private_key)
          (m.sender_decoded s.bundle s.decoded)
        ∙ s.has_key in
      let opens =
        subst
          (λ (t : AccountEnvelopePublicBundleSummaryV1).
            OpensFor c r.bundle.hpke_private_key t.hpke_public_key)
          (sym same_recipient) r.opens in
      let made =
        seal_envelope-Sealed c entropy a m.recipient.hpke_public_key m.sender.signature_private_key
          m.header m.plaintext envelope s.signing_key s.summary.signature_public_key
          r.bundle.hpke_private_key m.rest key s.signs opens
          (ap length (sym header_same) ∙ length-header_bytes a w)
          (ap parse_invitation_header (sym header_same) ∙ parse-header_bytes a w) in
      let small =
        (canonicalize-Encodes nz preview m.inner lawful title_text tags_text m.encoded).small in
      let (n, normal, decoded) =
        decode-canonicalize_preview nz preview m.inner lawful title_text tags_text m.encoded in
      (
        n,
        normal,
        opens-Sealed open_entropy e sender_private sender_public recipient_private recipient_public
              envelope m.header m.plaintext m.inner valid s r made
              (padded-unpadded a.padding_class m.inner m.plaintext small m.is_padded)
            ∙ decoded,
      )
