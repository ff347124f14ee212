-- ===== src/Account/Continuity/Response.antt =====
-- What `verify_continuity_response_v1` of rust/src/api/account_envelope/mod.rs accepts.
use mathlib.Core.Path.{subst}
use openmls_dart.Prelude.{
  ◌+◌, ◌≤◌, ◌≡◌, ◌↔◌, inl, inr, refl, sym, ap, ◌∙◌, Bool, true, false, not, some, List, [], ◌∷◌,
  length, Bytes, bytes_eq, eq_of_bytes_eq, ltb, arith, ok, guard, >>=-eq-ok, >>-eq-ok, guard-eq-ok,
  guard-true, ok_injective, if◌then◌else◌,
}
use openmls_dart.Account.Types.{authority_mismatch, bounds_exceeded, continuity_reset}
use openmls_dart.Account.Crypto.{CryptoProvider, total_length}
use openmls_dart.Account.PublicBundle.{ParsedPublicBundleV1, parse_complete_public_bundle}
use openmls_dart.Account.Bundles.{
  AccountEnvelopePublicBundleSummaryV1, verify_self_signature, verify_canonical_public_bundle_v1,
}
use openmls_dart.Account.Continuity.{
  VerifyContinuityResponseResultV1, rotation_chain_verified, reset_anchor_requires_acceptance,
  pinned_unchanged, manual_reanchor_verified, the_only, verify_reanchor, verify_response,
  verify_continuity_from_pin, verify_from, verify_continuity_response_v1,
}
use openmls_dart.Account.Continuity.Chain.{
  IsNext, IsVerified, Chain, here, link, summary_of, rotation_result, verify_canonical-IsVerified,
  verify_canonical-eq-ok, links-Chain, LinksOutcome, links-outcome,
}

module _ (c : CryptoProvider) where
  -- Along a chain the account stays, and each bundle is one generation later.
  Chain-generation :
      {last : Bytes} {r p : ParsedPublicBundleV1} {bundle : Bytes} {bundles : List Bytes}
      → Chain c last r p bundle bundles
      → (r.tbs.account_id ≡ p.tbs.account_id)
        × (r.tbs.generation ≡ p.tbs.generation + length bundles)
  Chain-generation (here e f) = (
    ap (λ (q : ParsedPublicBundleV1). q.tbs.account_id) f,
    ground (arith, ap (λ (q : ParsedPublicBundleV1). q.tbs.generation) f),
  )
  Chain-generation (link w l rest) =
      let (account, generation) = Chain-generation rest in
      let n = l.next in (account ∙ n.same_account, omega (arith, generation, n.next_number))

  -- How a result follows from the pinned contents `p`, with the contents `q` at its end.
  pub data IsAccepted (p q : ParsedPublicBundleV1) (pinned : Bytes) (bundles : List Bytes)
      (manual : Bool) (result : VerifyContinuityResponseResultV1) : Type 0 where
    unchanged :
        result.disposition ≡ pinned_unchanged
        → manual ≡ false
        → bundles ≡ []
        → result.verified_public_bundle ≡ pinned
        → IsAccepted p q pinned bundles manual result
    reanchored :
        result.disposition ≡ manual_reanchor_verified
        → manual ≡ true
        → bundles ≡ result.verified_public_bundle ∷ []
        → IsAccepted p q pinned bundles manual result
    rotated :
        result.disposition ≡ rotation_chain_verified
        → manual ≡ false
        → Chain c result.verified_public_bundle q p pinned bundles
        → q.tbs.generation ≡ p.tbs.generation + length bundles
        → IsAccepted p q pinned bundles manual result
    reset :
        result.disposition ≡ reset_anchor_requires_acceptance
        → manual ≡ false
        → bundles ≡ result.verified_public_bundle ∷ []
        → q.tbs.activation_kind ≡ continuity_reset
        → IsNext p.tbs q.tbs
        → IsAccepted p q pinned bundles manual result

module _ (c : CryptoProvider) (sha256 : Bytes → Bytes) where
  -- A pin and the result that it leads to.
  pub record Follows (pinned : Bytes) (bundles : List Bytes) (manual : Bool)
      (result : VerifyContinuityResponseResultV1) : Type 0 where
    pub p : ParsedPublicBundleV1
    pub q : ParsedPublicBundleV1
    pub pin_verified : IsVerified c pinned p
    pub end_verified : IsVerified c result.verified_public_bundle q
    pub summary : result.verified_summary ≡ summary_of c sha256 result.verified_public_bundle q
    pub same_account : q.tbs.account_id ≡ p.tbs.account_id
    pub accepted : IsAccepted c p q pinned bundles manual result

  the_only-eq-ok : (bundles : List Bytes) {b : Bytes} → the_only bundles ≡ ok b → bundles ≡ b ∷ []
  the_only-eq-ok [] h = absurd (cc h)
  the_only-eq-ok (b ∷ []) h = ap (λ t. t ∷ []) (ok_injective h)
  the_only-eq-ok (b ∷ d ∷ bs) h = absurd (cc h)

  reanchor-Follows :
      (pinned : Bytes) (p : ParsedPublicBundleV1) (bundles : List Bytes)
      (result : VerifyContinuityResponseResultV1)
      → IsVerified c pinned p
      → verify_reanchor c sha256 (summary_of c sha256 pinned p) bundles ≡ ok result
      → Follows pinned bundles true result
  unfolding verify_reanchor
  reanchor-Follows pinned p bundles result v h =
      let (b, only, h1) = >>=-eq-ok (the_only bundles) _ h in
      let (s, verified, h2) = >>=-eq-ok (verify_canonical_public_bundle_v1 c sha256 b) _ h1 in
      let (same, h3) =
        >>-eq-ok (guard (bytes_eq s.account_id p.tbs.account_id) authority_mismatch) _ h2 in
      let (q, w, e) = verify_canonical-eq-ok c sha256 b s verified in
      subst (λ t. Follows pinned bundles true t) (ok_injective h3)
        (record {
          p = p;
          q = q;
          pin_verified = v;
          end_verified = w;
          summary = e;
          same_account =
              ap (λ (t : AccountEnvelopePublicBundleSummaryV1). t.account_id) (sym e)
              ∙ eq_of_bytes_eq s.account_id p.tbs.account_id (guard-eq-ok _ _ same);
          accepted = reanchored refl refl (the_only-eq-ok bundles only);
        })

  one_left : (b : Bytes) (rest : List Bytes) → length (b ∷ rest) ≡ 1 → b ∷ rest ≡ b ∷ []
  one_left b [] h = refl
  one_left b (d ∷ rest) h = absurd (omega arith)

  -- From what the loop over the links comes to.
  links-Follows :
      (pinned : Bytes) (p : ParsedPublicBundleV1) (bundles : List Bytes)
      (result : VerifyContinuityResponseResultV1)
      → IsVerified c pinned p
      → LinksOutcome c sha256 (length bundles) 0 p pinned bundles result
      → Follows pinned bundles false result
  links-Follows pinned p bundles result v (inl (last, r, chain, w, same)) =
      let (account, generation) = Chain-generation c chain in
      subst (λ t. Follows pinned bundles false t) (sym same)
        (record {
          p = p;
          q = r;
          pin_verified = v;
          end_verified = w;
          summary = refl;
          same_account = account;
          accepted = rotated refl refl chain generation;
        })
  links-Follows pinned p bundles result v (inr (_, n, next, rest, e, w)) =
      subst (λ t. Follows pinned bundles false t) (sym w.same)
        (record {
          p = p;
          q = w.q;
          pin_verified = v;
          end_verified = w.verified;
          summary = refl;
          same_account = w.next.same_account;
          accepted =
              reset refl refl (e ∙ one_left next rest (ap length (sym e) ∙ n)) w.by_reset w.next;
        })

  response-Follows :
      (pinned : Bytes) (p : ParsedPublicBundleV1) (bundles : List Bytes)
      (result : VerifyContinuityResponseResultV1)
      → IsVerified c pinned p
      → verify_response c sha256 pinned (summary_of c sha256 pinned p) bundles ≡ ok result
      → Follows pinned bundles false result
  unfolding verify_response
  response-Follows pinned p [] result v h =
      subst (λ t. Follows pinned [] false t) (ok_injective h)
        (record {
          p = p;
          q = p;
          pin_verified = v;
          end_verified = v;
          summary = refl;
          same_account = refl;
          accepted = unchanged refl refl refl refl;
        })
  response-Follows pinned p (b ∷ bundles) result v h =
      let (_, h1) = >>-eq-ok (guard _ bounds_exceeded) _ h in
      let (q, parsed, h2) = >>=-eq-ok (parse_complete_public_bundle pinned) _ h1 in
      let (signed, h3) = >>-eq-ok (verify_self_signature c q) _ h2 in
      let w : IsVerified c pinned q = record { parsed = parsed; self_signed = signed } in
      links-Follows pinned q (b ∷ bundles) result w
        (links-outcome c sha256 (length (b ∷ bundles)) 0 q pinned (b ∷ bundles) w h3)

  by_authorization :
      (pinned : Bytes) (p : ParsedPublicBundleV1) (bundles : List Bytes) (manual : Bool)
      (result : VerifyContinuityResponseResultV1)
      → IsVerified c pinned p
      → (if manual
          then verify_reanchor c sha256 (summary_of c sha256 pinned p) bundles
          else verify_response c sha256 pinned (summary_of c sha256 pinned p) bundles)
        ≡ ok result
      → Follows pinned bundles manual result
  by_authorization pinned p bundles true result v h = reanchor-Follows pinned p bundles result v h
  by_authorization pinned p bundles false result v h = response-Follows pinned p bundles result v h

  -- With a pin, a response is accepted in four ways only, and in each the result is a verified bundle
  -- of the pinned account with its summary: nothing was sent, and the pin stays; the caller
  -- authorized a new anchor, and exactly one bundle was sent; every bundle is a rotation signed by the
  -- one before it, from the pin on, and the generation has grown by their number; or exactly one
  -- bundle was sent and is a reset of the next generation, which is handed out as a candidate.
  pub verify_continuity_response-Follows :
      (pinned : Bytes) (bundles : List Bytes) (manual : Bool)
      (result : VerifyContinuityResponseResultV1)
      → verify_continuity_response_v1 c sha256 (some pinned) bundles manual ≡ ok result
      → Follows pinned bundles manual result
  unfolding verify_continuity_response_v1 verify_from verify_continuity_from_pin
  verify_continuity_response-Follows pinned bundles manual result h =
      let (_, h1) = >>-eq-ok (guard _ bounds_exceeded) _ h in
      let (s, verified, h2) = >>=-eq-ok (verify_canonical_public_bundle_v1 c sha256 pinned) _ h1 in
      let (p, v, e) = verify_canonical-eq-ok c sha256 pinned s verified in
      by_authorization pinned p bundles manual result v (
        subst
          (λ t.
            (if manual
              then verify_reanchor c sha256 t bundles
              else verify_response c sha256 pinned t bundles)
            ≡ ok result)
          e h2)

  parsed_once :
      {bundle : Bytes} {p q : ParsedPublicBundleV1}
      → IsVerified c bundle p
      → IsVerified c bundle q
      → p ≡ q
  parsed_once v w = ok_injective (sym v.parsed ∙ w.parsed)

  rotated-Chain :
      {p q r : ParsedPublicBundleV1} {pinned last : Bytes} {bundles : List Bytes}
      → r ≡ q
      → IsAccepted c p q pinned bundles false (rotation_result c sha256 last r)
      → Chain c last r p pinned bundles
  rotated-Chain same (unchanged d _ _ _) = absurd (cc d)
  rotated-Chain same (reanchored d _ _) = absurd (cc d)
  rotated-Chain {p} {pinned = pinned} {last = last} {bundles = bundles} same (rotated _ _ chain _) =
      subst (λ t. Chain c last t p pinned bundles) (sym same) chain
  rotated-Chain same (reset d _ _ _ _) = absurd (cc d)

  rotation_bounds :
      (pinned : Bytes) (bundles : List Bytes) (s : AccountEnvelopePublicBundleSummaryV1)
      (last : Bytes) (r : ParsedPublicBundleV1)
      → verify_response c sha256 pinned s bundles ≡ ok (rotation_result c sha256 last r)
      → (1 ≤ length bundles) × (length bundles ≤ 32)
  unfolding verify_response
  rotation_bounds pinned [] s last r h =
      absurd (cc (ap (λ (t : VerifyContinuityResponseResultV1). t.disposition) (ok_injective h)))
  rotation_bounds pinned (b ∷ bundles) s last r h =
      let (few, _) = >>-eq-ok (guard _ bounds_exceeded) _ h in
      let n = guard-eq-ok (not (ltb 32 (length (b ∷ bundles)))) bounds_exceeded few in
      (omega arith, ground arith)

  Chain-response :
      (pinned : Bytes) (p : ParsedPublicBundleV1) (bundles : List Bytes) (last : Bytes)
      (r : ParsedPublicBundleV1) (s : AccountEnvelopePublicBundleSummaryV1)
      → IsVerified c pinned p
      → 1 ≤ length bundles
      → length bundles ≤ 32
      → Chain c last r p pinned bundles
      → verify_response c sha256 pinned s bundles ≡ ok (rotation_result c sha256 last r)
  unfolding verify_response
  Chain-response pinned p [] last r s v n m chain = absurd (omega arith)
  Chain-response pinned p (b ∷ bundles) last r s v n m chain =
      rw
        (
          guard-true (not (ltb 32 (length (b ∷ bundles)))) bounds_exceeded (ground arith),
          v.parsed,
          v.self_signed,
        )
        (links-Chain c sha256 (length (b ∷ bundles)) 0 v chain)

  -- Bundles that the caller did not re-anchor continue a verified pin to `last` by rotation exactly if
  -- they are at most 65,536 bytes and 1 to 32 bundles, and form a chain from the pin in which each is
  -- verified and signed as the next rotation by the one before it, up to `last`.
  pub rotation-Chain_iff :
      (pinned : Bytes) (p : ParsedPublicBundleV1) (bundles : List Bytes) (last : Bytes)
      (r : ParsedPublicBundleV1)
      → IsVerified c pinned p
      → IsVerified c last r
      → (verify_continuity_response_v1 c sha256 (some pinned) bundles false
          ≡ ok (rotation_result c sha256 last r))
        ↔ ((total_length 0 bundles ≤ 65536)
            × (1 ≤ length bundles)
            × (length bundles ≤ 32)
            × Chain c last r p pinned bundles)
  unfolding verify_continuity_response_v1 verify_from verify_continuity_from_pin
  rotation-Chain_iff pinned p bundles last r v w = (
    λ h.
        let (few, h1) =
          >>-eq-ok (guard (not (ltb 65536 (total_length 0 bundles))) bounds_exceeded) _ h in
        let n = guard-eq-ok (not (ltb 65536 (total_length 0 bundles))) bounds_exceeded few in
        let (s, _, h2) = >>=-eq-ok (verify_canonical_public_bundle_v1 c sha256 pinned) _ h1 in
        let (some_sent, few_sent) = rotation_bounds pinned bundles s last r h2 in
        let f =
          verify_continuity_response-Follows pinned bundles false (rotation_result c sha256 last r)
            h in
        (
          ground arith,
          some_sent,
          few_sent,
          subst (λ t. Chain c last r t pinned bundles) (parsed_once f.pin_verified v)
              (rotated-Chain (parsed_once w f.end_verified) f.accepted),
        ),
    λ (small, some_sent, few_sent, chain).
        rw
          (
            guard-true (not (ltb 65536 (total_length 0 bundles))) bounds_exceeded (ground arith),
            verify_canonical-IsVerified c sha256 pinned p v,
          )
          (Chain-response pinned p bundles last r (summary_of c sha256 pinned p) v some_sent
            few_sent chain),
  )
