-- ===== src/Account/Continuity/Chain.antt =====
-- Which responses continue a pinned bundle: the loop of rust/src/api/account_envelope/mod.rs against
-- chains of signed rotations.
use openmls_dart.Prelude.{
  ℕ, suc, ◌+◌, ◌≡◌, ◌⊎◌, inl, inr, refl, sym, ◌∙◌, true, ◌&&◌, List, [], ◌∷◌, ◌++◌, Bytes,
  bytes_eq_iff, ◌==◌, arith, ok, err, guard, >>=-eq-ok, >>-eq-ok, guard-eq-ok, Bool-cases,
  ok_injective, if◌then◌else◌,
}
use openmls_dart.Account.Types.{
  AccountEnvelopeResult, authority_mismatch, non_canonical_encoding,
  AccountEnvelopeActivationKindV1, initial, rotation, continuity_reset,
}
use openmls_dart.Account.Crypto.{CryptoProvider, bundle_digest_domain_v1}
use openmls_dart.Account.PublicBundle.{
  PublicBundleTbsV1, ParsedPublicBundleV1, parse_complete_public_bundle,
}
use openmls_dart.Account.Bundles.{
  AccountEnvelopePublicBundleSummaryV1, verify_self_signature, public_bundle_digest_v1,
  verify_canonical_public_bundle_v1,
}
use openmls_dart.Account.Continuity.{
  VerifyContinuityResponseResultV1, AccountEnvelopeContinuityDispositionV1, rotation_chain_verified,
  reset_anchor_requires_acceptance, is_next_link, on_kind, continuity_result, verify_transition,
  verify_links,
}
use openmls_dart.Account.Continuity.Signed.{
  IsSigned, verify_transition-IsSigned, IsSigned-verify_transition,
}

-- A current bundle that follows a previous one of the same account.
pub record IsNext (previous current : PublicBundleTbsV1) : Type 0 where
  pub same_account : current.account_id ≡ previous.account_id
  pub previous_number : current.previous_generation ≡ previous.generation
  pub next_number : current.generation ≡ previous.generation + 1

is_next_link-IsNext : (p q : PublicBundleTbsV1) → is_next_link p q ≡ true → IsNext p q
unfolding is_next_link
is_next_link-IsNext p q h = ground (arith, bytes_eq_iff q.account_id p.account_id)

pub IsNext-is_next_link : (p q : PublicBundleTbsV1) → IsNext p q → is_next_link p q ≡ true
unfolding is_next_link
IsNext-is_next_link p q h = ground (arith, bytes_eq_iff q.account_id p.account_id)

on_kind_rotation :
    {A : Type 0} {k : AccountEnvelopeActivationKindV1}
    → k ≡ rotation
    → (a b : AccountEnvelopeResult A) → on_kind k a b ≡ a
on_kind_rotation h a b = rw h

kind_cases :
    (k : AccountEnvelopeActivationKindV1)
    → (k ≡ rotation) ⊎ ((k ≡ continuity_reset) ⊎ (k ≡ initial))
kind_cases rotation = inl refl
kind_cases continuity_reset = inr (inl refl)
kind_cases initial = inr (inr refl)

module _ (c : CryptoProvider) where
  -- The bytes of a bundle that is signed by its own key.
  pub record IsVerified (bundle : Bytes) (p : ParsedPublicBundleV1) : Type 0 where
    pub parsed : parse_complete_public_bundle bundle ≡ ok p
    pub self_signed : verify_self_signature c p ≡ ok tt

  -- A rotation that the previous bundle's key has signed.
  pub record IsLink (previous current : ParsedPublicBundleV1) : Type 0 where
    pub next : IsNext previous.tbs current.tbs
    pub by_rotation : current.tbs.activation_kind ≡ rotation
    pub signed : IsSigned c previous current

  -- `Chain last r p bundle bundles`: from the bundle with the contents `p`, the bundles are one
  -- rotation after another, and `last`, with the contents `r`, is where they end.
  pub data Chain (last : Bytes) (r : ParsedPublicBundleV1)
      : ParsedPublicBundleV1 → Bytes → List Bytes → Type 0 where
    here :
        {p : ParsedPublicBundleV1} {bundle : Bytes}
        → last ≡ bundle
        → r ≡ p
        → Chain last r p bundle []
    link :
        {p q : ParsedPublicBundleV1} {bundle next : Bytes} {bundles : List Bytes}
        → IsVerified next q
        → IsLink p q
        → Chain last r q next bundles
        → Chain last r p bundle (next ∷ bundles)

module _ (c : CryptoProvider) (sha256 : Bytes → Bytes) where
  -- What verifying says of a bundle with these contents.
  abbrev pub summary_of : Bytes → ParsedPublicBundleV1 → AccountEnvelopePublicBundleSummaryV1
  summary_of bundle p = record {
    account_id = p.tbs.account_id;
    generation = p.tbs.generation;
    hpke_public_key = p.tbs.hpke_public_key;
    signature_public_key = p.tbs.signature_public_key;
    activation_kind = p.tbs.activation_kind;
    previous_generation = p.tbs.previous_generation;
    reset_reason = p.tbs.reset_reason;
    digest_sha256 = sha256 (bundle_digest_domain_v1 ++ bundle);
  }

  abbrev pub rotation_result : Bytes → ParsedPublicBundleV1 → VerifyContinuityResponseResultV1
  rotation_result bundle p = record {
    disposition = rotation_chain_verified;
    verified_public_bundle = bundle;
    verified_summary = summary_of bundle p;
  }

  pub verify_canonical-IsVerified :
      (bundle : Bytes) (p : ParsedPublicBundleV1)
      → IsVerified c bundle p
      → verify_canonical_public_bundle_v1 c sha256 bundle ≡ ok (summary_of bundle p)
  unfolding verify_canonical_public_bundle_v1 public_bundle_digest_v1
  verify_canonical-IsVerified bundle p v = rw (v.parsed, v.self_signed)

  pub verify_canonical-eq-ok :
      (bundle : Bytes) (s : AccountEnvelopePublicBundleSummaryV1)
      → verify_canonical_public_bundle_v1 c sha256 bundle ≡ ok s
      → (p : ParsedPublicBundleV1) × IsVerified c bundle p × (s ≡ summary_of bundle p)
  unfolding verify_canonical_public_bundle_v1
  verify_canonical-eq-ok bundle s h =
      let (p, parsed, h1) = >>=-eq-ok (parse_complete_public_bundle bundle) _ h in
      let (signed, _) = >>-eq-ok (verify_self_signature c p) _ h1 in
      let v : IsVerified c bundle p = record { parsed = parsed; self_signed = signed } in
      (
        p,
        v,
        ok_injective (
            sym h
            ∙ unfold verify_canonical_public_bundle_v1 in verify_canonical-IsVerified bundle p v),
      )

  pub links-Chain :
      {r : ParsedPublicBundleV1} {last : Bytes} (n i : ℕ) {p : ParsedPublicBundleV1}
      {bundle : Bytes} {bundles : List Bytes}
      → IsVerified c bundle p
      → Chain c last r p bundle bundles
      → verify_links c sha256 n i p bundle bundles ≡ ok (rotation_result last r)
  unfolding verify_links continuity_result
  links-Chain n i {p} {bundle = bundle} v (here e f) =
      rw (verify_canonical-IsVerified bundle p v, e, f)
  links-Chain n i {p} v (link {q = q} {next = next} w l rest) =
      rw (w.parsed, w.self_signed, IsNext-is_next_link p.tbs q.tbs l.next)
        (on_kind_rotation l.by_rotation _ _
          ∙ rw (IsSigned-verify_transition c p q l.signed) (links-Chain n (suc i) w rest))

  -- A reset of a bundle with the contents `p`: it is handed out as a candidate.
  pub record IsReset (p : ParsedPublicBundleV1) (bundle : Bytes)
      (result : VerifyContinuityResponseResultV1) : Type 0 where
    pub q : ParsedPublicBundleV1
    pub verified : IsVerified c bundle q
    pub next : IsNext p.tbs q.tbs
    pub by_reset : q.tbs.activation_kind ≡ continuity_reset
    pub same :
        result
        ≡ record (rotation_result bundle q) { disposition = reset_anchor_requires_acceptance }

  -- What a successful run of the loop comes to.
  abbrev pub LinksOutcome :
      ℕ → ℕ → ParsedPublicBundleV1 → Bytes → List Bytes → VerifyContinuityResponseResultV1 → Type 0
  LinksOutcome n i p bundle bundles result =
      ((last : Bytes) × (r : ParsedPublicBundleV1) × Chain c last r p bundle bundles
        × IsVerified c last r
        × (result ≡ rotation_result last r))
      ⊎ ((i ≡ 0)
          × (n ≡ 1)
          × (next : Bytes) × (rest : List Bytes) × (bundles ≡ next ∷ rest)
          × IsReset p next result)

  continuity_result-eq-ok :
      (d : AccountEnvelopeContinuityDispositionV1) (bundle : Bytes) (p : ParsedPublicBundleV1)
      (result : VerifyContinuityResponseResultV1)
      → IsVerified c bundle p
      → continuity_result c sha256 d bundle ≡ ok result
      → result ≡ record (rotation_result bundle p) { disposition = d }
  unfolding continuity_result
  continuity_result-eq-ok d bundle p result v h =
      sym (ok_injective (rw (verify_canonical-IsVerified bundle p v) at h))

  rotation-outcome :
      (n i : ℕ) (p : ParsedPublicBundleV1) (bundle next : Bytes) (bundles : List Bytes)
      (q : ParsedPublicBundleV1) (result : VerifyContinuityResponseResultV1)
      → IsVerified c next q
      → IsLink c p q
      → LinksOutcome n (suc i) q next bundles result
      → LinksOutcome n i p bundle (next ∷ bundles) result
  rotation-outcome n i p bundle next bundles q result w l (inl (last, r, chain, v, same)) =
      inl (last, r, link w l chain, v, same)
  rotation-outcome n i p bundle next bundles q result w l (inr (z, _, _, _, _, _)) =
      absurd (omega arith)

  reset-outcome :
      (n i : ℕ) (p : ParsedPublicBundleV1) (bundle next : Bytes) (bundles : List Bytes)
      (q : ParsedPublicBundleV1) (result : VerifyContinuityResponseResultV1)
      → IsVerified c next q
      → IsNext p.tbs q.tbs
      → q.tbs.activation_kind ≡ continuity_reset
      → (if i == 0 && n == 1
          then continuity_result c sha256 reset_anchor_requires_acceptance next
          else err non_canonical_encoding)
        ≡ ok result
      → LinksOutcome n i p bundle (next ∷ bundles) result
  reset-outcome n i p bundle next bundles q result w m kind h =
      elim (Bool-cases (i == 0 && n == 1)) [
        | inr later ↦ absurd (cc (rw later at h))
        | inl alone ↦ inr (
          ground arith,
          ground arith,
          next,
          bundles,
          refl,
          record {
            q = q;
            verified = w;
            next = m;
            by_reset = kind;
            same =
                continuity_result-eq-ok reset_anchor_requires_acceptance next q result w
                  (rw alone at h);
          },
        )
      ]

  pub links-outcome :
      {result : VerifyContinuityResponseResultV1} (n i : ℕ) (p : ParsedPublicBundleV1)
      (bundle : Bytes) (bundles : List Bytes)
      → IsVerified c bundle p
      → verify_links c sha256 n i p bundle bundles ≡ ok result
      → LinksOutcome n i p bundle bundles result
  unfolding verify_links
  links-outcome {result} n i p bundle [] v h = inl (
    bundle,
    p,
    here refl refl,
    v,
    continuity_result-eq-ok rotation_chain_verified bundle p result v h,
  )
  links-outcome {result} n i p bundle (next ∷ bundles) v h =
      let (q, parsed, h1) = >>=-eq-ok (parse_complete_public_bundle next) _ h in
      let (signed, h2) = >>-eq-ok (verify_self_signature c q) _ h1 in
      let (follows, h3) = >>-eq-ok (guard (is_next_link p.tbs q.tbs) authority_mismatch) _ h2 in
      let w : IsVerified c next q = record { parsed = parsed; self_signed = signed } in
      let m : IsNext p.tbs q.tbs = is_next_link-IsNext p.tbs q.tbs (guard-eq-ok _ _ follows) in
      elim (kind_cases q.tbs.activation_kind) [
        | inl kind ↦
            let (transition, h4) = >>-eq-ok (verify_transition c p q) _ (rw kind at h3) in
            rotation-outcome n i p bundle next bundles q result w
              (record {
                next = m;
                by_rotation = kind;
                signed = verify_transition-IsSigned c p q transition;
              })
              (links-outcome n (suc i) q next bundles w h4)
        | inr (inl kind) ↦ reset-outcome n i p bundle next bundles q result w m kind (rw kind at h3)
        | inr (inr kind) ↦ absurd (cc (rw kind at h3))
      ]
