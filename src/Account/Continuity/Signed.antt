-- ===== src/Account/Continuity/Signed.antt =====
-- The signature that a bundle of a continuity response has of the key before it:
-- rust/src/api/account_envelope/mod.rs.
use openmls_dart.Prelude.{
  ◌≤◌, ◌≡◌, refl, true, not, some, List, [], ◌∷◌, ◌++◌, length, Bytes, ltb, arith, ok, guard,
  guard-eq-ok, guard-true, >>=-eq-ok, >>-eq-ok, ok_injective, Option-cases, inl, inr,
}
use openmls_dart.Account.Types.{bounds_exceeded}
use openmls_dart.Account.Crypto.{
  CryptoProvider, bundle_transition_signature_domain_v1, signature_transcript_max_bytes,
  total_length, joined, transcript, verify_domain_signature,
}
use openmls_dart.Account.PublicBundle.{ParsedPublicBundleV1}
use openmls_dart.Account.Continuity.{verify_transition}

-- The signed part of a bundle and its own signature.
abbrev pub signed_parts : ParsedPublicBundleV1 → List Bytes
signed_parts current = current.tbs_bytes ∷ current.self_signature ∷ []

-- The key of the previous bundle has signed the current one, in a transcript of at most 4,096 bytes.
pub record IsSigned (c : CryptoProvider) (previous current : ParsedPublicBundleV1) : Type 0 where
  pub signature : Bytes
  pub present : current.transition_signature ≡ some signature
  pub transcript_small :
      total_length (length bundle_transition_signature_domain_v1) (signed_parts current) ≤ 4096
  pub accepted :
      c.verify_signature
        (bundle_transition_signature_domain_v1 ++ joined (signed_parts current))
        previous.tbs.signature_public_key
        signature
      ≡ true

verify_domain_signature-eq-ok :
    (c : CryptoProvider) (domain : Bytes) (parts : List Bytes) (key signature : Bytes)
    → verify_domain_signature c domain parts key signature ≡ ok tt
    → (total_length (length domain) parts ≤ 4096)
      × (c.verify_signature (domain ++ joined parts) key signature ≡ true)
unfolding verify_domain_signature transcript
verify_domain_signature-eq-ok c domain parts key signature h =
    let (message, made, verified) = >>=-eq-ok (transcript domain parts) _ h in
    let (small, same) =
      >>-eq-ok
        (guard (not (ltb signature_transcript_max_bytes (total_length (length domain) parts)))
          bounds_exceeded)
        _ made in
    (ground (arith, guard-eq-ok _ _ small), rw (ok_injective same) (guard-eq-ok _ _ verified))

accepted-verify_domain_signature :
    (c : CryptoProvider) (domain : Bytes) (parts : List Bytes) (key signature : Bytes)
    → total_length (length domain) parts ≤ 4096
    → c.verify_signature (domain ++ joined parts) key signature ≡ true
    → verify_domain_signature c domain parts key signature ≡ ok tt
unfolding verify_domain_signature transcript
accepted-verify_domain_signature c domain parts key signature small accepted =
    rw
      (
        guard-true (not (ltb signature_transcript_max_bytes (total_length (length domain) parts)))
            bounds_exceeded (ground arith),
        accepted,
      )
      refl

module _ (c : CryptoProvider) (previous current : ParsedPublicBundleV1) where
  pub verify_transition-IsSigned :
      verify_transition c previous current ≡ ok tt → IsSigned c previous current
  unfolding verify_transition
  verify_transition-IsSigned h = elim (Option-cases current.transition_signature) [
    | inl gone ↦ absurd (cc (rw gone at h))
    | inr (signature, there) ↦
        let (small, accepted) =
          verify_domain_signature-eq-ok c bundle_transition_signature_domain_v1
            (signed_parts current) previous.tbs.signature_public_key signature (rw there at h) in
        record {
          signature = signature;
          present = there;
          transcript_small = small;
          accepted = accepted;
        }
  ]

  pub IsSigned-verify_transition :
      IsSigned c previous current → verify_transition c previous current ≡ ok tt
  unfolding verify_transition
  IsSigned-verify_transition w = rw w.present (
      accepted-verify_domain_signature c bundle_transition_signature_domain_v1
        (signed_parts current) previous.tbs.signature_public_key w.signature w.transcript_small
        w.accepted)
