-- ===== src/Account/Continuity.antt =====
-- The continuity of public bundles: rust/src/api/account_envelope/mod.rs, from a pinned bundle to the
-- one that a response ends with.
pub mod Signed
pub mod Chain
pub mod Response
pub mod Authorized
pub mod Successor
use openmls_dart.Prelude.{
  ℕ, suc, ◌+◌, Bool, true, false, not, ◌||◌, ◌&&◌, Option, none, some, List, [], ◌∷◌, length, Bytes,
  bytes_eq, ltb, ◌==◌, Result, ok, err, ◌>>=◌, ◌>>◌, guard, ok_or, if◌then◌else◌,
}
use openmls_dart.Account.Types.{
  AccountEnvelopeErrorCodeV1, AccountEnvelopeResult, authority_mismatch, non_canonical_encoding,
  bounds_exceeded, AccountEnvelopeActivationKindV1, initial, rotation, continuity_reset,
}
use openmls_dart.Account.Crypto.{
  CryptoProvider, bundle_transition_signature_domain_v1, verify_domain_signature, total_length,
}
use openmls_dart.Account.PublicBundle.{
  PublicBundleTbsV1, ParsedPublicBundleV1, parse_complete_public_bundle,
}
use openmls_dart.Account.Bundles.{
  AccountEnvelopePublicBundleSummaryV1, verify_self_signature, verify_canonical_public_bundle_v1,
}

abbrev pub continuity_max_links : ℕ
continuity_max_links = 32

abbrev pub continuity_max_canonical_bytes : ℕ
continuity_max_canonical_bytes = 65536

pub data AccountEnvelopeContinuityDispositionV1 : Type 0 where
  first_observation pinned_unchanged rotation_chain_verified :
      AccountEnvelopeContinuityDispositionV1
  reset_anchor_requires_acceptance manual_reanchor_verified : AccountEnvelopeContinuityDispositionV1

pub record VerifyContinuityResponseResultV1 : Type 0 where
  pub disposition : AccountEnvelopeContinuityDispositionV1
  pub verified_public_bundle : Bytes
  pub verified_summary : AccountEnvelopePublicBundleSummaryV1

-- The generations of a link. A generation is at most 2^53 - 1, so the sum does not overflow.
unfoldable pub is_next_link : PublicBundleTbsV1 → PublicBundleTbsV1 → Bool
is_next_link previous current = not (
    not (bytes_eq current.account_id previous.account_id)
    || (not (current.previous_generation == previous.generation)
        || not (current.generation == previous.generation + 1)))

-- The `match` on the kind of a link: what a rotation, and what a reset, comes to.
abbrev pub on_kind {ℓ} :
    {A : Type ℓ}
    → AccountEnvelopeActivationKindV1
    → Result AccountEnvelopeErrorCodeV1 A
    → Result AccountEnvelopeErrorCodeV1 A
    → Result AccountEnvelopeErrorCodeV1 A
on_kind rotation on_rotation on_reset = on_rotation
on_kind continuity_reset on_rotation on_reset = on_reset
on_kind initial on_rotation on_reset = err non_canonical_encoding

-- `into_iter().next()` of a list of one.
abbrev pub the_only : List Bytes → AccountEnvelopeResult Bytes
the_only (bundle ∷ []) = ok bundle
the_only [] = err non_canonical_encoding
the_only (bundle ∷ other ∷ bundles) = err non_canonical_encoding

module _ (c : CryptoProvider) where
  -- The signature of a rotation by the bundle before it.
  unfoldable pub verify_transition :
      ParsedPublicBundleV1 → ParsedPublicBundleV1 → AccountEnvelopeResult (Unit {0})
  verify_transition previous current = do
    transition_signature ← ok_or current.transition_signature non_canonical_encoding
    verify_domain_signature c bundle_transition_signature_domain_v1
        (current.tbs_bytes ∷ current.self_signature ∷ []) previous.tbs.signature_public_key
        transition_signature

module _ (c : CryptoProvider) (sha256 : Bytes → Bytes) where
  unfoldable pub continuity_result :
      AccountEnvelopeContinuityDispositionV1
      → Bytes
      → AccountEnvelopeResult VerifyContinuityResponseResultV1
  continuity_result disposition bundle = do
    summary ← verify_canonical_public_bundle_v1 c sha256 bundle
    ok (record {
      disposition = disposition;
      verified_public_bundle = bundle;
      verified_summary = summary;
    })

  -- The loop over the links. `response_len` and `index` are read by a reset only.
  unfoldable pub verify_links :
      ℕ
      → ℕ
      → ParsedPublicBundleV1
      → Bytes
      → List Bytes
      → AccountEnvelopeResult VerifyContinuityResponseResultV1
  verify_links response_len index previous current_bundle [] =
      continuity_result rotation_chain_verified current_bundle
  verify_links response_len index previous current_bundle (bundle ∷ bundles) = do
    current ← parse_complete_public_bundle bundle
    verify_self_signature c current
    guard (is_next_link previous.tbs current.tbs) authority_mismatch
    on_kind current.tbs.activation_kind
        (verify_transition c previous current
          >> verify_links response_len (suc index) current bundle bundles)
        (if index == 0 && response_len == 1
          then continuity_result reset_anchor_requires_acceptance bundle
          else err non_canonical_encoding)

  unfoldable pub verify_reanchor :
      AccountEnvelopePublicBundleSummaryV1
      → List Bytes
      → AccountEnvelopeResult VerifyContinuityResponseResultV1
  verify_reanchor pinned_summary response_bundles = do
    reanchor ← the_only response_bundles
    summary ← verify_canonical_public_bundle_v1 c sha256 reanchor
    guard (bytes_eq summary.account_id pinned_summary.account_id) authority_mismatch
    ok (record {
      disposition = manual_reanchor_verified;
      verified_public_bundle = reanchor;
      verified_summary = summary;
    })

  -- From the second half of `verify_continuity_from_pin`, where there is a response.
  unfoldable pub verify_response :
      Bytes
      → AccountEnvelopePublicBundleSummaryV1
      → List Bytes
      → AccountEnvelopeResult VerifyContinuityResponseResultV1
  verify_response pinned pinned_summary [] = ok (record {
    disposition = pinned_unchanged;
    verified_public_bundle = pinned;
    verified_summary = pinned_summary;
  })
  verify_response pinned pinned_summary (bundle ∷ bundles) = do
    guard (not (ltb continuity_max_links (length (bundle ∷ bundles)))) bounds_exceeded
    previous ← parse_complete_public_bundle pinned
    verify_self_signature c previous
    verify_links (length (bundle ∷ bundles)) 0 previous pinned (bundle ∷ bundles)

  unfoldable pub verify_continuity_from_pin :
      Bytes → List Bytes → Bool → AccountEnvelopeResult VerifyContinuityResponseResultV1
  verify_continuity_from_pin pinned response_bundles manual_reanchor_authorized = do
    pinned_summary ← verify_canonical_public_bundle_v1 c sha256 pinned
    if manual_reanchor_authorized
        then verify_reanchor pinned_summary response_bundles
        else verify_response pinned pinned_summary response_bundles

  -- The `match` on the pin.
  unfoldable pub verify_from :
      Option Bytes → List Bytes → Bool → AccountEnvelopeResult VerifyContinuityResponseResultV1
  verify_from none public_bundles manual_reanchor_authorized = do
    guard (not manual_reanchor_authorized) non_canonical_encoding
    bundle ← the_only public_bundles
    continuity_result first_observation bundle
  verify_from (some pinned) public_bundles manual_reanchor_authorized =
      verify_continuity_from_pin pinned public_bundles manual_reanchor_authorized

  unfoldable pub verify_continuity_response_v1 :
      Option Bytes → List Bytes → Bool → AccountEnvelopeResult VerifyContinuityResponseResultV1
  verify_continuity_response_v1 pinned_public_bundle public_bundles manual_reanchor_authorized = do
    guard (not (ltb continuity_max_canonical_bytes (total_length 0 public_bundles))) bounds_exceeded
    verify_from pinned_public_bundle public_bundles manual_reanchor_authorized
