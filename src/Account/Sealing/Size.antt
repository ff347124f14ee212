-- ===== src/Account/Sealing/Size.antt =====
-- The length of what rust/src/api/account_envelope/mod.rs seals.
use openmls_dart.Prelude.{
  ℕ, ◌+◌, ◌≡◌, ap, sym, ◌∙◌, Bytes, Option, length, length-append, to_be_bytes, length-to_be_bytes,
  ltb, ◌==◌, ==_iff, not, arith, ok, ok_or, guard, guard-eq-ok, >>=-eq-ok, >>-eq-ok, ok_injective,
}
use openmls_dart.Account.Types.{
  bounds_exceeded, internal_crypto_failure, private_bundle_invalid,
  AccountEnvelopePrivateBundleAuthorityV1,
}
use openmls_dart.Account.Crypto.{
  CryptoProvider, envelope_signature_domain_v1, hpke_context_domain_v1, exact_key,
  sign_domain_message, hpke_seal_invitation,
}
use openmls_dart.Account.Continuity.Authorized.{sign_domain_message-eq-ok}
use openmls_dart.Account.Invitation.{
  AccountEnvelopePaddingClassV1, ciphertext_bytes, ContextInvitationAuthorityV1,
  encode_invitation_envelope,
}
use openmls_dart.Account.Invitation.Header.{IsInvitation, length-header_bytes}
use openmls_dart.Account.Invitation.Preview.{ContextInvitationPreviewV1, Normalization}
use openmls_dart.Account.Sealing.{signed_parts, seal_envelope, seal_context_invitation_preview_v1}
use openmls_dart.Account.Sealing.Calls.{exact_key-eq-ok}
use openmls_dart.Account.Sealing.Made.{seal-Prepared, header-of}

encode_envelope-length :
    (header encapsulation ciphertext signature envelope : Bytes) (n : ℕ)
    → encode_invitation_envelope header encapsulation ciphertext signature ≡ ok envelope
    → length header ≡ 115
    → length encapsulation ≡ 32
    → length ciphertext ≡ n
    → length signature ≡ 64
    → length envelope ≡ 213 + n
unfolding encode_invitation_envelope
encode_envelope-length header encapsulation ciphertext signature envelope n h a b d e =
    let (_, h1) = >>-eq-ok (guard (ltb (length ciphertext) 65536) bounds_exceeded) _ h in
    let (_, h2) =
      >>-eq-ok (guard (not (ltb 2277 (115 + (32 + 2 + length ciphertext + 64)))) bounds_exceeded) _
        h1 in
    ap length (sym (ok_injective h2))
    ∙ rw
        (
          length-append header _,
          length-append encapsulation _,
          length-append (to_be_bytes 2 (length ciphertext)) _,
          length-append ciphertext signature,
          length-to_be_bytes 2 (length ciphertext),
          a,
          b,
          d,
          e,
        )
        (omega arith)

module _ (c : CryptoProvider) where
  seal_invitation-length :
      (entropy key header plaintext encapsulation ciphertext : Bytes)
      → hpke_seal_invitation c entropy key header plaintext ≡ ok (encapsulation, ciphertext)
      → length encapsulation ≡ 32
  unfolding hpke_seal_invitation
  seal_invitation-length entropy key header plaintext encapsulation ciphertext h =
      let (sealed, _, h1) =
        >>=-eq-ok
          (ok_or (c.hpke_seal entropy key hpke_context_domain_v1 header plaintext)
            internal_crypto_failure)
          _ h in
      let (k, exact, h2) = >>=-eq-ok (exact_key sealed.kem_output) _ h1 in
      ap length (sym (ap (λ (q : Bytes × Bytes). q.0) (ok_injective h2)))
      ∙ (exact_key-eq-ok sealed.kem_output k exact).1

  seal_envelope-length :
      (entropy : Bytes) (class : AccountEnvelopePaddingClassV1) (key : Bytes)
      (sender_key : Option Bytes) (header plaintext envelope : Bytes)
      → seal_envelope c entropy class key sender_key header plaintext ≡ ok envelope
      → length header ≡ 115
      → length envelope ≡ 213 + ciphertext_bytes class
  unfolding seal_envelope
  seal_envelope-length entropy class key sender_key header plaintext envelope h size =
      let ((encapsulation, ciphertext), sealed, h1) =
        >>=-eq-ok (hpke_seal_invitation c entropy key header plaintext) _ h in
      let (long, h2) =
        >>-eq-ok (guard (length ciphertext == ciphertext_bytes class) internal_crypto_failure) _
          h1 in
      let (k, _, h3) = >>=-eq-ok (ok_or sender_key private_bundle_invalid) _ h2 in
      let (signature, signed, h4) =
        >>=-eq-ok
          (sign_domain_message c envelope_signature_domain_v1
            (signed_parts header encapsulation ciphertext) k)
          _ h3 in
      encode_envelope-length header encapsulation ciphertext signature envelope
        (ciphertext_bytes class) h4 size
        (seal_invitation-length entropy key header plaintext encapsulation ciphertext sealed)
        ((==_iff (length ciphertext) (ciphertext_bytes class)).0 (guard-eq-ok _ _ long))
        (sign_domain_message-eq-ok c envelope_signature_domain_v1
          (signed_parts header encapsulation ciphertext) k signature signed)

-- A sealed envelope has 213 bytes more than the ciphertext of its padding class, whatever the preview
-- and the keys are, for an authority whose arrays have their lengths and whose checks pass.
pub seal-length :
    (c : CryptoProvider) (sha256 : Bytes → Bytes) (nz : Normalization)
    (test_entropy entropy : Bytes) (a : ContextInvitationAuthorityV1)
    (local : AccountEnvelopePrivateBundleAuthorityV1) (preview : ContextInvitationPreviewV1)
    (recipient_bundle sender_private_bundle envelope : Bytes)
    → IsInvitation a
    → seal_context_invitation_preview_v1 c sha256 nz test_entropy entropy a local preview
        recipient_bundle sender_private_bundle
      ≡ ok envelope
    → length envelope ≡ 213 + ciphertext_bytes a.padding_class
seal-length c sha256 nz test_entropy entropy a local preview recipient_bundle sender_private_bundle
      envelope w h =
    let m =
      seal-Prepared c sha256 nz test_entropy entropy a local preview recipient_bundle
        sender_private_bundle envelope h in
    seal_envelope-length c entropy a.padding_class m.recipient.hpke_public_key
      m.sender.signature_private_key m.header m.plaintext envelope m.rest
      (ap length (sym (header-of a m.header w m.header_encoded)) ∙ length-header_bytes a w)
