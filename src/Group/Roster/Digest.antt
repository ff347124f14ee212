-- ===== src/Group/Roster/Digest.antt =====
-- When `mls_roster_digest_v1` of rust/src/api/group_e2ee.rs gives a digest, and which one.
use openmls_dart.Prelude.{
  ℕ, ◌^◌, ◌<◌, ◌≡◌, refl, sym, ap, ◌∙◌, String, List, [], ◌∷◌, ◌++◌, length, append_assoc,
  append-nil, All, Bytes, to_be_bytes, ltb, arith, ok, guard-true, >>=-eq-ok, >>-eq-ok,
  ok_injective,
}
use openmls_dart.Group.Roster.{
  MlsRosterLeafV1, exceeds_encoding_limit, roster_domain_v1, checked_u32, hash_len_prefixed,
  hash_leaves, roster_preimage, roster_digest, validate_canonical_leaves, mls_roster_digest_v1,
}
use openmls_dart.Group.Roster.Canonical.{IsCanonical, validate_canonical_leaves_iff}
use openmls_dart.Group.Roster.Preimage.{
  len_prefixed, leaves_bytes, FitsLeaf, roster_bytes, roster_preimage-Hashes,
}

fits-checked_u32 : (n : ℕ) (label : String) → n < 2 ^ 32 → checked_u32 n label ≡ ok n
unfolding checked_u32
fits-checked_u32 n label h =
    rw (guard-true (ltb n (2 ^ 32)) (exceeds_encoding_limit label) (ground arith)) refl

fits-hash_len_prefixed :
    (hash value : Bytes)
    → length value < 2 ^ 32
    → hash_len_prefixed hash value ≡ ok (hash ++ len_prefixed value)
unfolding hash_len_prefixed
fits-hash_len_prefixed hash value h =
    rw (fits-checked_u32 (length value) "byte string" h) (simp append_assoc)

fits-hash_leaves :
    (hash : Bytes) (leaves : List MlsRosterLeafV1)
    → All FitsLeaf leaves
    → hash_leaves hash leaves ≡ ok (hash ++ leaves_bytes leaves)
unfolding hash_leaves
fits-hash_leaves hash [] h = rw append-nil refl
fits-hash_leaves hash (leaf ∷ leaves) (fits, rest) =
    let with_identity =
      (hash ++ to_be_bytes 4 leaf.leaf_index) ++ len_prefixed leaf.credential_identity in
    let with_key = with_identity ++ len_prefixed leaf.signature_public_key in
    rw
      (
        fits-hash_len_prefixed (hash ++ to_be_bytes 4 leaf.leaf_index) leaf.credential_identity
            fits.identity_fits,
        fits-hash_len_prefixed with_identity leaf.signature_public_key fits.key_fits,
        fits-hash_leaves with_key leaves rest,
      )
      (simp append_assoc)

fits-roster_preimage :
    (group_id : Bytes) (epoch : ℕ) (leaves : List MlsRosterLeafV1)
    → length group_id < 2 ^ 32
    → length leaves < 2 ^ 32
    → All FitsLeaf leaves
    → roster_preimage group_id epoch leaves ≡ ok (roster_bytes group_id epoch leaves)
unfolding roster_preimage
fits-roster_preimage group_id epoch leaves short few fit =
    let with_group = roster_domain_v1 ++ len_prefixed group_id in
    rw
      (
        fits-hash_len_prefixed roster_domain_v1 group_id short,
        fits-checked_u32 (length leaves) "roster leaf count" few,
        fits-hash_leaves (with_group ++ to_be_bytes 8 epoch ++ to_be_bytes 4 (length leaves)) leaves
            fit,
      )
      (simp append_assoc)

module _ (sha256 : Bytes → Bytes) (group_id : Bytes) (epoch : ℕ)
    (leaves : List MlsRosterLeafV1) where
  pub mls_roster_digest_v1-eq-ok :
      {out : Bytes}
      → mls_roster_digest_v1 sha256 group_id epoch leaves ≡ ok out
      → IsCanonical leaves × (out ≡ sha256 (roster_bytes group_id epoch leaves))
  unfolding mls_roster_digest_v1 roster_digest
  mls_roster_digest_v1-eq-ok h =
      let (canonical, h') = >>-eq-ok (validate_canonical_leaves leaves) _ h in
      let (preimage, hashed, e) = >>=-eq-ok (roster_preimage group_id epoch leaves) _ h' in
      (
        (validate_canonical_leaves_iff leaves).0 canonical,
        sym (ok_injective e)
            ∙ ap sha256 (roster_preimage-Hashes group_id epoch leaves hashed).bytes,
      )

  pub fits-mls_roster_digest_v1 :
      IsCanonical leaves
      → length group_id < 2 ^ 32
      → length leaves < 2 ^ 32
      → All FitsLeaf leaves
      → mls_roster_digest_v1 sha256 group_id epoch leaves
        ≡ ok (sha256 (roster_bytes group_id epoch leaves))
  unfolding mls_roster_digest_v1 roster_digest
  fits-mls_roster_digest_v1 canonical short few fit =
      rw
        (
          (validate_canonical_leaves_iff leaves).1 canonical,
          fits-roster_preimage group_id epoch leaves short few fit,
        )
        refl
