-- ===== src/Account/Continuity/Successor.antt =====
-- A successor that `authorize_successor_public_bundle_v1` of
-- rust/src/api/account_envelope/mod.rs authorizes, and the private bundle that it retires.
use openmls_dart.Prelude.{
  ◌≡◌, refl, sym, ap, ◌∙◌, true, false, some, [], ◌∷◌, Bytes, All, IsByte, bytes_eq_iff, arith, ok,
  err, ok_injective,
}
use openmls_dart.Account.Types.{
  private_bundle_invalid, AccountEnvelopePrivateBundleAuthorityV1, validate_authority,
  DecodedPrivateBundleV1,
}
use openmls_dart.Account.Crypto.{CryptoProvider}
use openmls_dart.Account.PrivateBundle.{encode_private_bundle, decode_private_bundle}
use openmls_dart.Account.PrivateBundle.RoundTrip.{
  IsBundle, decode_private_bundle-eq-ok, decode-encode_private_bundle,
}
use openmls_dart.Account.PublicBundle.{
  PublicBundleTbsV1, ParsedPublicBundleV1, parse_complete_public_bundle,
}
use openmls_dart.Account.PublicBundle.Complete.{
  rotation_candidate_completes, candidate_is_rotation, parse_complete_public_bundle-small,
}
use openmls_dart.Account.Bundles.{
  AuthorizeSuccessorPublicBundleResultV1, authority_eq, retired, is_successor_of,
  verify_self_signature, decode_and_validate_private_bundle, authorize_successor_public_bundle_v1,
}
use openmls_dart.Account.Continuity.{verify_transition, verify_continuity_response_v1}
use openmls_dart.Account.Continuity.Chain.{IsNext, IsVerified, IsLink, here, link, rotation_result}
use openmls_dart.Account.Continuity.Signed.{verify_transition-IsSigned}
use openmls_dart.Account.Continuity.Response.{rotation-Chain_iff}
use openmls_dart.Account.Continuity.Authorized.{
  verify_transition_of, Authorizes, authorize-Authorizes,
}

successor_number :
    (t : PublicBundleTbsV1) (p : PublicBundleTbsV1) (a e : AccountEnvelopePrivateBundleAuthorityV1)
    → is_successor_of t a ≡ true
    → authority_eq a e ≡ true
    → p.account_id ≡ e.account_id
    → p.generation ≡ e.generation
    → IsNext p t
unfolding is_successor_of authority_eq
successor_number t p a e s same account generation =
    let id = bytes_eq_iff t.account_id a.account_id in
    let expected = bytes_eq_iff a.account_id e.account_id in
    record {
      same_account = id.0 (ground arith) ∙ (expected.0 (ground arith) ∙ sym account);
      previous_number = ground arith;
      next_number = ground arith;
    }

module _ (c : CryptoProvider) (sha256 : Bytes → Bytes) where
  continues :
      (expected : AccountEnvelopePrivateBundleAuthorityV1) (private_bundle successor : Bytes)
      (r : AuthorizeSuccessorPublicBundleResultV1) (pinned : Bytes) (p : ParsedPublicBundleV1)
      → All IsByte successor
      → (w : Authorizes c expected private_bundle successor r) → IsVerified c pinned p
      → p.tbs.account_id ≡ expected.account_id
      → p.tbs.generation ≡ expected.generation
      → p.tbs.signature_public_key ≡ w.d.signature_public_key
      → verify_continuity_response_v1 c sha256
          (some pinned)
          (r.authorized_canonical_successor_public_bundle ∷ [])
          false
        ≡ ok (
            rotation_result c sha256 r.authorized_canonical_successor_public_bundle
              (record w.candidate { transition_signature = some w.signature }))
  unfolding verify_transition verify_self_signature
  continues expected private_bundle successor r pinned p bytes w v account generation key =
      let q : ParsedPublicBundleV1 = record w.candidate {
        transition_signature = some w.signature;
      } in
      let bundle = r.authorized_canonical_successor_public_bundle in
      let parsed : parse_complete_public_bundle bundle ≡ ok q =
        ap parse_complete_public_bundle (
          ap
            (λ (t : AuthorizeSuccessorPublicBundleResultV1).
              t.authorized_canonical_successor_public_bundle)
            w.same)
        ∙ (rotation_candidate_completes successor w.candidate w.signature bytes w.parsed
            w.signature_length).1 in
      let verified : IsVerified c bundle q = record {
        parsed = parsed;
        self_signed = w.self_signed;
      } in
      let l : IsLink c p q = record {
        next =
            successor_number q.tbs p.tbs w.d.authority expected w.number w.usable.expected_authority
              account generation;
        by_rotation = candidate_is_rotation successor w.candidate bytes w.parsed;
        signed =
            verify_transition-IsSigned c p q
              (ap (λ t. verify_transition_of c t w.candidate w.signature) key ∙ w.transition);
      } in
      let small = parse_complete_public_bundle-small bundle q parsed in
      (rotation-Chain_iff c sha256 pinned p (bundle ∷ []) bundle q v verified).1
        (omega (arith, small), omega arith, omega arith, link verified l (here refl refl))

  -- Authorizing a successor of whole bytes succeeds only with a bundle that whoever has pinned the
  -- previous one accepts: if the private bundle holds the key that the pinned, verified bundle
  -- names, and the pinned bundle has the account and the generation that were expected, a response
  -- of the authorized bundle alone is verified as a chain of rotations that ends with it.
  pub authorized_bundle_continues :
      (entropy : Bytes) (expected : AccountEnvelopePrivateBundleAuthorityV1)
      (private_bundle successor : Bytes) (r : AuthorizeSuccessorPublicBundleResultV1)
      (d : DecodedPrivateBundleV1) (pinned : Bytes) (p : ParsedPublicBundleV1)
      → All IsByte successor
      → authorize_successor_public_bundle_v1 c sha256 entropy expected private_bundle successor
        ≡ ok r
      → decode_private_bundle private_bundle ≡ ok d
      → IsVerified c pinned p
      → p.tbs.account_id ≡ expected.account_id
      → p.tbs.generation ≡ expected.generation
      → p.tbs.signature_public_key ≡ d.signature_public_key
      → (q : ParsedPublicBundleV1) × (verify_continuity_response_v1 c sha256
            (some pinned)
            (r.authorized_canonical_successor_public_bundle ∷ [])
            false
          ≡ ok (rotation_result c sha256 r.authorized_canonical_successor_public_bundle q))
  authorized_bundle_continues entropy expected private_bundle successor r d pinned p bytes h decoded
        v account generation key =
      let w = authorize-Authorizes c sha256 entropy expected private_bundle successor r h in
      let same : d ≡ w.d = ok_injective (sym decoded ∙ w.usable.decoded) in
      (
        record w.candidate { transition_signature = some w.signature },
        continues expected private_bundle successor r pinned p bytes w v account generation
            (key ∙ ap (λ (t : DecodedPrivateBundleV1). t.signature_public_key) same),
      )

  retired-IsBundle : (d : DecodedPrivateBundleV1) → IsBundle d → IsBundle (retired d)
  retired-IsBundle d w = record {
    account_length = w.account_length;
    root_length = w.root_length;
    authority_valid = w.authority_valid;
    hpke_private_length = w.hpke_private_length;
    hpke_public_length = w.hpke_public_length;
    signature_private_length = tt;
    signature_public_length = w.signature_public_length;
    hpke_private_nonzero = w.hpke_private_nonzero;
    hpke_public_nonzero = w.hpke_public_nonzero;
    signature_public_nonzero = w.signature_public_nonzero;
    state_fits = refl;
  }

  retired_is_refused :
      (entropy : Bytes) (expected : AccountEnvelopePrivateBundleAuthorityV1) (bundle : Bytes)
      (d : DecodedPrivateBundleV1)
      → decode_private_bundle bundle ≡ ok (retired d)
      → authority_eq d.authority expected ≡ true
      → validate_authority expected ≡ ok tt
      → (other : Bytes)
      → authorize_successor_public_bundle_v1 c sha256 entropy expected bundle other
        ≡ err private_bundle_invalid
  unfolding decode_and_validate_private_bundle authorize_successor_public_bundle_v1
  retired_is_refused entropy expected bundle d decoded same valid other = rw (valid, decoded, same)

  -- The retired private bundle that authorizing gives out, from a private bundle of whole bytes, is
  -- read as the same bundle without its signing key; and no successor can be authorized with it
  -- again, under the same expected authority.
  pub retired_bundle_is_spent :
      (entropy : Bytes) (expected : AccountEnvelopePrivateBundleAuthorityV1)
      (private_bundle successor : Bytes) (r : AuthorizeSuccessorPublicBundleResultV1)
      (d : DecodedPrivateBundleV1)
      → All IsByte private_bundle
      → authorize_successor_public_bundle_v1 c sha256 entropy expected private_bundle successor
        ≡ ok r
      → decode_private_bundle private_bundle ≡ ok d
      → (decode_private_bundle r.retired_previous_private_bundle_candidate ≡ ok (retired d))
        × ((fresh other : Bytes)
            → authorize_successor_public_bundle_v1 c sha256 fresh expected
                r.retired_previous_private_bundle_candidate other
              ≡ err private_bundle_invalid)
  retired_bundle_is_spent entropy expected private_bundle successor r d bytes h decoded =
      let w = authorize-Authorizes c sha256 entropy expected private_bundle successor r h in
      let same : w.d ≡ d = ok_injective (sym w.usable.decoded ∙ decoded) in
      let bundle = r.retired_previous_private_bundle_candidate in
      let (_, valid) = decode_private_bundle-eq-ok private_bundle d bytes decoded in
      let read : decode_private_bundle bundle ≡ ok (retired d) =
        ap decode_private_bundle (
          ap
            (λ (t : AuthorizeSuccessorPublicBundleResultV1).
              t.retired_previous_private_bundle_candidate)
            w.same
          ∙ ap (λ (t : DecodedPrivateBundleV1). encode_private_bundle (retired t)) same)
        ∙ decode-encode_private_bundle (retired d) (retired-IsBundle d valid) in
      let expected_authority =
        ap (λ (t : DecodedPrivateBundleV1). authority_eq t.authority expected) (sym same)
        ∙ w.usable.expected_authority in
      (
        read,
        λ fresh.
            retired_is_refused fresh expected bundle d read expected_authority w.authority_valid,
      )
