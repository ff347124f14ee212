-- ===== src/Group/Roster.antt =====
-- Rosters and their digest: rust/src/api/group_e2ee.rs. SHA-256 is a parameter. Updating a hasher
-- piece by piece hashes the pieces joined, so a hasher is the bytes that it was given.
pub mod Canonical
pub mod Preimage
pub mod Digest
use openmls_dart.Prelude.{
  ℕ, ◌+◌, ◌^◌, String, Bool, true, false, not, ◌&&◌, Option, none, some, List, [], ◌∷◌, ◌++◌,
  length, any, Bytes, ascii, bytes_eq, to_be_bytes, leb, ltb, ◌==◌, Result, ok, err, ◌>>=◌, ◌>>◌,
  guard,
}

pub record MlsRosterLeafV1 : Type 0 where
  pub leaf_index : ℕ
  pub credential_identity : Bytes
  pub signature_public_key : Bytes

pub record MlsRosterSummaryV1 : Type 0 where
  pub group_id : Bytes
  pub epoch : ℕ
  pub leaves : List MlsRosterLeafV1
  pub digest_sha256 : Bytes

pub record MlsExpectedRosterStateV1 : Type 0 where
  pub group_id : Bytes
  pub epoch : ℕ
  pub digest_sha256 : Bytes

-- One constructor for each message of the source.
pub data RosterRefusal : Type 0 where
  leaves_not_ascending duplicate_identity duplicate_signature_key : RosterRefusal
  exceeds_encoding_limit : String → RosterRefusal

-- "openmls_dart/roster-summary/v1\0".
abbrev pub roster_domain_v1 : Bytes
roster_domain_v1 = ascii "openmls_dart/roster-summary/v1" ++ 0 ∷ []

-- `previous_index.is_some_and(|index| leaf.leaf_index <= index)`.
abbrev pub at_most_previous : ℕ → Option ℕ → Bool
at_most_previous leaf_index none = false
at_most_previous leaf_index (some index) = leb leaf_index index

-- The loop over the leaves, from its three variables.
unfoldable pub validate_leaves_from :
    Option ℕ → List Bytes → List Bytes → List MlsRosterLeafV1 → Result RosterRefusal (Unit {0})
validate_leaves_from previous_index identities signature_keys [] = ok tt
validate_leaves_from previous_index identities signature_keys (leaf ∷ leaves) = do
  guard (not (at_most_previous leaf.leaf_index previous_index)) leaves_not_ascending
  guard (not (any (bytes_eq leaf.credential_identity) identities)) duplicate_identity
  guard (not (any (bytes_eq leaf.signature_public_key) signature_keys)) duplicate_signature_key
  validate_leaves_from (some leaf.leaf_index) (leaf.credential_identity ∷ identities)
      (leaf.signature_public_key ∷ signature_keys) leaves

unfoldable pub validate_canonical_leaves : List MlsRosterLeafV1 → Result RosterRefusal (Unit {0})
validate_canonical_leaves leaves = validate_leaves_from none [] [] leaves

-- `u32::try_from`.
unfoldable pub checked_u32 : ℕ → String → Result RosterRefusal ℕ
checked_u32 value label = do guard (ltb value (2 ^ 32)) (exceeds_encoding_limit label); ok value

unfoldable pub hash_len_prefixed : Bytes → Bytes → Result RosterRefusal Bytes
hash_len_prefixed hash value = do
  n ← checked_u32 (length value) "byte string"
  ok (hash ++ to_be_bytes 4 n ++ value)

unfoldable pub hash_leaves : Bytes → List MlsRosterLeafV1 → Result RosterRefusal Bytes
hash_leaves hash [] = ok hash
hash_leaves hash (leaf ∷ leaves) = do
  with_identity ← hash_len_prefixed (hash ++ to_be_bytes 4 leaf.leaf_index) leaf.credential_identity
  with_key ← hash_len_prefixed with_identity leaf.signature_public_key
  hash_leaves with_key leaves

-- The bytes that `roster_digest` hashes.
unfoldable pub roster_preimage : Bytes → ℕ → List MlsRosterLeafV1 → Result RosterRefusal Bytes
roster_preimage group_id epoch leaves = do
  with_group ← hash_len_prefixed roster_domain_v1 group_id
  n ← checked_u32 (length leaves) "roster leaf count"
  hash_leaves (with_group ++ to_be_bytes 8 epoch ++ to_be_bytes 4 n) leaves

module _ (sha256 : Bytes → Bytes) where
  unfoldable pub roster_digest : Bytes → ℕ → List MlsRosterLeafV1 → Result RosterRefusal Bytes
  roster_digest group_id epoch leaves = do
    preimage ← roster_preimage group_id epoch leaves
    ok (sha256 preimage)

  unfoldable pub mls_roster_digest_v1 :
      Bytes → ℕ → List MlsRosterLeafV1 → Result RosterRefusal Bytes
  mls_roster_digest_v1 group_id epoch leaves = do
    validate_canonical_leaves leaves
    roster_digest group_id epoch leaves
