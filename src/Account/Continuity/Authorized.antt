-- ===== src/Account/Continuity/Authorized.antt =====
-- What `authorize_successor_public_bundle_v1` of rust/src/api/account_envelope/mod.rs has found when it
-- succeeds.
use openmls_dart.Prelude.{
  ◌≡◌, sym, ap, ◌∙◌, true, not, ◌&&◌, some, List, [], ◌∷◌, length, Bytes, ◌==◌, arith, Result, ok,
  guard, ok_or, >>=-eq-ok, >>-eq-ok, guard-eq-ok, ok_injective,
}
use openmls_dart.Account.Types.{
  AccountEnvelopeErrorCodeV1, authority_mismatch, private_bundle_invalid, internal_crypto_failure,
  AccountEnvelopePrivateBundleAuthorityV1, validate_authority, DecodedPrivateBundleV1,
}
use openmls_dart.Account.Crypto.{
  CryptoProvider, bundle_transition_signature_domain_v1, transcript, exact_signature,
  sign_domain_message, verify_domain_signature, validate_private_bundle_crypto,
}
use openmls_dart.Account.PrivateBundle.{encode_private_bundle, decode_private_bundle}
use openmls_dart.Account.PublicBundle.{
  ParsedPublicBundleV1, encode_complete_public_bundle, parse_rotation_candidate,
}
use openmls_dart.Account.Bundles.{
  AuthorizeSuccessorPublicBundleResultV1, authority_eq, is_active, retired, is_successor_of,
  verify_self_signature, decode_and_validate_private_bundle, verify_canonical_public_bundle_v1,
  authorize_successor_public_bundle_v1,
}

exact_signature-eq-ok : (b s : Bytes) → exact_signature b ≡ ok s → length s ≡ 64
unfolding exact_signature
exact_signature-eq-ok b s h =
    let (size, same) = >>-eq-ok (guard (length b == 64) internal_crypto_failure) _ h in
    let n = guard-eq-ok _ internal_crypto_failure size in
    ap length (sym (ok_injective same)) ∙ ground arith

module _ (c : CryptoProvider) where
  pub sign_domain_message-eq-ok :
      (domain : Bytes) (parts : List Bytes) (key signature : Bytes)
      → sign_domain_message c domain parts key ≡ ok signature
      → length signature ≡ 64
  unfolding sign_domain_message
  sign_domain_message-eq-ok domain parts key signature h =
      let (message, _, h1) = >>=-eq-ok (transcript domain parts) _ h in
      let (s, _, h2) = >>=-eq-ok (ok_or (c.sign message key) internal_crypto_failure) _ h1 in
      exact_signature-eq-ok s signature h2

  -- What `decode_and_validate_private_bundle` has checked of an active bundle.
  pub record IsUsable (private_bundle : Bytes) (expected : AccountEnvelopePrivateBundleAuthorityV1)
      (d : DecodedPrivateBundleV1) : Type 0 where
    pub decoded : decode_private_bundle private_bundle ≡ ok d
    pub expected_authority : authority_eq d.authority expected ≡ true
    pub active : is_active d.state ≡ true

  decode_and_validate-IsUsable :
      (entropy private_bundle : Bytes) (expected : AccountEnvelopePrivateBundleAuthorityV1)
      (d : DecodedPrivateBundleV1)
      → decode_and_validate_private_bundle c entropy private_bundle expected true ≡ ok d
      → IsUsable private_bundle expected d
  unfolding decode_and_validate_private_bundle
  decode_and_validate-IsUsable entropy private_bundle expected d h =
      let (b, decoded, h1) = >>=-eq-ok (decode_private_bundle private_bundle) _ h in
      let (same, h2) =
        >>-eq-ok (guard (authority_eq b.authority expected) private_bundle_invalid) _ h1 in
      let (active, h3) =
        >>-eq-ok (guard (not (true && not (is_active b.state))) private_bundle_invalid) _ h2 in
      let (_, h4) = >>-eq-ok (validate_private_bundle_crypto c entropy b) _ h3 in
      let a = guard-eq-ok _ _ active in
      rw (← ok_injective h4) (record {
        decoded = decoded;
        expected_authority = guard-eq-ok _ _ same;
        active = ground arith;
      })

  abbrev pub verify_transition_of :
      Bytes → ParsedPublicBundleV1 → Bytes → Result AccountEnvelopeErrorCodeV1 (Unit {0})
  verify_transition_of key candidate signature =
      verify_domain_signature c bundle_transition_signature_domain_v1
        (candidate.tbs_bytes ∷ candidate.self_signature ∷ []) key signature

  -- What a successful authorization has found.
  pub record Authorizes (expected : AccountEnvelopePrivateBundleAuthorityV1)
      (private_bundle successor : Bytes) (r : AuthorizeSuccessorPublicBundleResultV1) : Type 0 where
    pub d : DecodedPrivateBundleV1
    pub candidate : ParsedPublicBundleV1
    pub signature : Bytes
    pub authority_valid : validate_authority expected ≡ ok tt
    pub usable : IsUsable private_bundle expected d
    pub parsed : parse_rotation_candidate successor ≡ ok candidate
    pub self_signed : verify_self_signature c candidate ≡ ok tt
    pub number : is_successor_of candidate.tbs d.authority ≡ true
    pub signature_length : length signature ≡ 64
    pub transition : verify_transition_of d.signature_public_key candidate signature ≡ ok tt
    pub same : r ≡ record {
      authorized_canonical_successor_public_bundle =
          encode_complete_public_bundle candidate.tbs_bytes candidate.self_signature
            (some signature);
      retired_previous_private_bundle_candidate = encode_private_bundle (retired d);
    }

  module _ (sha256 : Bytes → Bytes) where
    pub authorize-Authorizes :
        (entropy : Bytes) (expected : AccountEnvelopePrivateBundleAuthorityV1)
        (private_bundle successor : Bytes) (r : AuthorizeSuccessorPublicBundleResultV1)
        → authorize_successor_public_bundle_v1 c sha256 entropy expected private_bundle successor
          ≡ ok r
        → Authorizes expected private_bundle successor r
    unfolding authorize_successor_public_bundle_v1
    authorize-Authorizes entropy expected private_bundle successor r h =
        let (valid, h1) = >>-eq-ok (validate_authority expected) _ h in
        let (d, usable, h2) =
          >>=-eq-ok (decode_and_validate_private_bundle c entropy private_bundle expected true) _
            h1 in
        let (candidate, parsed, h3) = >>=-eq-ok (parse_rotation_candidate successor) _ h2 in
        let (self, h4) = >>-eq-ok (verify_self_signature c candidate) _ h3 in
        let (number, h5) =
          >>-eq-ok (guard (is_successor_of candidate.tbs d.authority) authority_mismatch) _ h4 in
        let (key, _, h6) = >>=-eq-ok (ok_or d.signature_private_key private_bundle_invalid) _ h5 in
        let parts : List Bytes = candidate.tbs_bytes ∷ candidate.self_signature ∷ [] in
        let (signature, signed, h7) =
          >>=-eq-ok (sign_domain_message c bundle_transition_signature_domain_v1 parts key) _ h6 in
        let (transition, h8) =
          >>-eq-ok (verify_transition_of d.signature_public_key candidate signature) _ h7 in
        let (_, _, h9) =
          >>=-eq-ok
            (verify_canonical_public_bundle_v1 c sha256 (
              encode_complete_public_bundle candidate.tbs_bytes candidate.self_signature
                (some signature)))
            _ h8 in
        record {
          d = d;
          candidate = candidate;
          signature = signature;
          authority_valid = valid;
          usable = decode_and_validate-IsUsable entropy private_bundle expected d usable;
          parsed = parsed;
          self_signed = self;
          number = guard-eq-ok _ _ number;
          signature_length =
              sign_domain_message-eq-ok bundle_transition_signature_domain_v1 parts key signature
                signed;
          transition = transition;
          same = sym (ok_injective h9);
        }
