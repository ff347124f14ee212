-- ===== src/Group/State/Rosters.antt =====
-- What `validate_roster` of rust/src/local_group_state.rs admits.
use openmls_dart.Prelude.{
  ◌≤◌, ◌≡◌, refl, sym, ◌∙◌, not, ◌||◌, List, [], ◌∷◌, length, All, Bytes, bytes_eq_refl,
  eq_of_bytes_eq, arith, ltb, ◌==◌, ok, map_err, map_err-eq-ok, guard, guard-eq-ok, guard-true,
  >>=-eq-ok, >>-eq-ok,
}
use openmls_dart.Group.Errors.{invalid_storage_snapshot, limit_exceeded}
use openmls_dart.Group.Roster.{MlsRosterLeafV1, MlsRosterSummaryV1, mls_roster_digest_v1}
use openmls_dart.Group.Roster.Canonical.{IsCanonical}
use openmls_dart.Group.Roster.Preimage.{FitsLeaf, roster_bytes}
use openmls_dart.Group.Roster.Digest.{mls_roster_digest_v1-eq-ok, fits-mls_roster_digest_v1}
use openmls_dart.Group.State.{fixed, validate_leaf, validate_leaves, validate_roster, max_leaves}

-- The credential of a leaf is an account's identity, its key an Ed25519 one.
pub record IsLeaf (leaf : MlsRosterLeafV1) : Type 0 where
  pub identity_length : length leaf.credential_identity ≡ 45
  pub key_length : length leaf.signature_public_key ≡ 32

-- A roster of 1 to 256 leaves in their order, without a repeated identity or key, whose digest is the
-- hash of its group, its epoch and its leaves.
pub record IsRoster (sha256 : Bytes → Bytes) (r : MlsRosterSummaryV1) : Type 0 where
  pub group_length : length r.group_id ≡ 16
  pub digest_length : length r.digest_sha256 ≡ 32
  pub occupied : 1 ≤ length r.leaves
  pub bounded : length r.leaves ≤ 256
  pub leaves_sized : All IsLeaf r.leaves
  pub canonical : IsCanonical r.leaves
  pub digest : r.digest_sha256 ≡ sha256 (roster_bytes r.group_id r.epoch r.leaves)

validate_leaf-IsLeaf : (leaf : MlsRosterLeafV1) → validate_leaf leaf ≡ ok tt → IsLeaf leaf
unfolding validate_leaf fixed
validate_leaf-IsLeaf leaf h =
    let (identity, key) = >>-eq-ok (fixed leaf.credential_identity 45) _ h in
    record {
      identity_length = ground (arith, guard-eq-ok _ _ identity);
      key_length = ground (arith, guard-eq-ok _ _ key);
    }

IsLeaf-validate_leaf : (leaf : MlsRosterLeafV1) → IsLeaf leaf → validate_leaf leaf ≡ ok tt
unfolding validate_leaf fixed
IsLeaf-validate_leaf leaf l = ground (arith, l.identity_length, l.key_length)

validate_leaves-IsLeaf :
    (leaves : List MlsRosterLeafV1) → validate_leaves leaves ≡ ok tt → All IsLeaf leaves
unfolding validate_leaves
validate_leaves-IsLeaf [] h = tt
validate_leaves-IsLeaf (leaf ∷ leaves) h =
    let (first, rest) = >>-eq-ok (validate_leaf leaf) _ h in
    (validate_leaf-IsLeaf leaf first, validate_leaves-IsLeaf leaves rest)

IsLeaf-validate_leaves :
    (leaves : List MlsRosterLeafV1) → All IsLeaf leaves → validate_leaves leaves ≡ ok tt
unfolding validate_leaves
IsLeaf-validate_leaves [] h = refl
IsLeaf-validate_leaves (leaf ∷ leaves) (first, rest) =
    rw (IsLeaf-validate_leaf leaf first) (IsLeaf-validate_leaves leaves rest)

leaves_fit : (leaves : List MlsRosterLeafV1) → All IsLeaf leaves → All FitsLeaf leaves
leaves_fit [] h = tt
leaves_fit (leaf ∷ leaves) (l, rest) = (
  record {
    identity_fits = omega (arith, l.identity_length);
    key_fits = omega (arith, l.key_length);
  },
  leaves_fit leaves rest,
)

module _ (sha256 : Bytes → Bytes) (r : MlsRosterSummaryV1) where
  pub validate_roster-IsRoster : validate_roster sha256 r ≡ ok tt → IsRoster sha256 r
  unfolding validate_roster fixed
  validate_roster-IsRoster h =
      let (group, h₁) = >>-eq-ok (fixed r.group_id 16) _ h in
      let (digest, h₂) = >>-eq-ok (fixed r.digest_sha256 32) _ h₁ in
      let (count, h₃) =
        >>-eq-ok
          (guard (not (length r.leaves == 0 || ltb max_leaves (length r.leaves))) limit_exceeded) _
          h₂ in
      let (sized, h₄) = >>-eq-ok (validate_leaves r.leaves) _ h₃ in
      let (hash, hashed, same) =
        >>=-eq-ok
          (map_err (λ _. invalid_storage_snapshot)
            (mls_roster_digest_v1 sha256 r.group_id r.epoch r.leaves))
          _ h₄ in
      let (canonical, e) =
        mls_roster_digest_v1-eq-ok sha256 r.group_id r.epoch r.leaves (map_err-eq-ok _ _ hashed) in
      record {
        group_length = ground (arith, guard-eq-ok _ _ group);
        digest_length = ground (arith, guard-eq-ok _ _ digest);
        occupied = ground (arith, guard-eq-ok _ _ count);
        bounded = ground (arith, guard-eq-ok _ _ count);
        leaves_sized = validate_leaves-IsLeaf r.leaves sized;
        canonical = canonical;
        digest = sym (eq_of_bytes_eq hash r.digest_sha256 (guard-eq-ok _ _ same)) ∙ e;
      }

  pub IsRoster-validate_roster : IsRoster sha256 r → validate_roster sha256 r ≡ ok tt
  unfolding validate_roster fixed
  IsRoster-validate_roster w =
      rw
        (
          guard-true (length r.group_id == 16) invalid_storage_snapshot
              (ground (arith, w.group_length)),
          guard-true (length r.digest_sha256 == 32) invalid_storage_snapshot
              (ground (arith, w.digest_length)),
          guard-true (not (length r.leaves == 0 || ltb max_leaves (length r.leaves))) limit_exceeded
              (ground (arith, w.occupied, w.bounded)),
          IsLeaf-validate_leaves r.leaves w.leaves_sized,
          fits-mls_roster_digest_v1 sha256 r.group_id r.epoch r.leaves w.canonical
              (omega (arith, w.group_length)) (omega (arith, w.bounded))
              (leaves_fit r.leaves w.leaves_sized),
          ← w.digest,
          bytes_eq_refl r.digest_sha256,
        )
        refl
