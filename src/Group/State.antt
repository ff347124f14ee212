-- ===== src/Group/State.antt =====
-- `LocalGroupState` of rust/src/local_group_state.rs: the current roster, the retained history and
-- the pending Commit. SHA-256 is a parameter. A method on `&mut self` gives its result and the state.

use Prim.Native.Nat.{min}
pub mod Rosters
pub mod Authors
pub mod Bindings
pub mod WellFormed
pub mod Valid
pub mod Advance
pub mod Messages
pub mod Log
use openmls_dart.Prelude.{
  ℕ, suc, ◌+◌, ◌-◌, ◌^◌, Bool, false, not, ◌&&◌, ◌||◌, Option, none, some, List, [], ◌∷◌, ◌++◌,
  length, any, Bytes, bytes_eq, leb, ltb, ◌==◌, if◌then◌else◌, Result, ok, err, ◌>>=◌, ◌>>◌, guard,
  map_err, ok_or,
}
use openmls_dart.Group.Errors.{
  MlsErrorCode, invalid_storage_snapshot, limit_exceeded, unsupported_retention,
  pending_binding_mismatch, group_mismatch, required_commit_epoch_mismatch, future_message_epoch,
  past_epoch_unavailable,
}
use openmls_dart.Group.Roster.{
  MlsRosterLeafV1, MlsRosterSummaryV1, MlsExpectedRosterStateV1, mls_roster_digest_v1,
}

abbrev pub max_leaves : ℕ
max_leaves = 256

pub record MlsTransitionContext : Type 0 where
  pub command_id : Bytes
  pub context_sha256 : Bytes

pub record MlsPendingCommitBinding : Type 0 where
  pub group_id : Bytes
  pub incarnation_id : Bytes
  pub transition : MlsTransitionContext
  pub author : MlsRosterLeafV1
  pub previous_state : MlsExpectedRosterStateV1
  pub commit_sha256 : Bytes
  pub aad_sha256 : Bytes
  pub welcome_sha256 : Option Bytes
  pub group_info_sha256 : Option Bytes

pub record PendingRecord : Type 0 where
  pub binding : MlsPendingCommitBinding
  pub proposed_roster : MlsRosterSummaryV1
  pub preparation_base_sha256 : Bytes
  pub upstream_pending_sha256 : Bytes

pub record LocalGroupState : Type 0 where
  pub group_id : Bytes
  pub incarnation_id : Bytes
  pub retention : ℕ
  pub join_epoch : ℕ
  pub current : MlsRosterSummaryV1
  pub history : List MlsRosterSummaryV1
  pub pending : Option PendingRecord

abbrev pub Checked : Type 0
Checked = Result MlsErrorCode (Unit {0})

unfoldable pub fixed : Bytes → ℕ → Checked
fixed value len = guard (length value == len) invalid_storage_snapshot

-- `(1..=128).contains(&value.len())`.
unfoldable pub opaque_id : Bytes → Checked
opaque_id value = guard (leb 1 (length value) && leb (length value) 128) limit_exceeded

unfoldable pub validate_retention : ℕ → Checked
validate_retention retention = guard (retention == 2 || retention == 4) unsupported_retention

unfoldable pub validate_leaf : MlsRosterLeafV1 → Checked
validate_leaf leaf = do fixed leaf.credential_identity 45; fixed leaf.signature_public_key 32

unfoldable pub validate_leaves : List MlsRosterLeafV1 → Checked
validate_leaves [] = ok tt
validate_leaves (leaf ∷ leaves) = do validate_leaf leaf; validate_leaves leaves

-- `u64::checked_add(1)`.
unfoldable pub checked_suc : ℕ → Option ℕ
checked_suc n = if ltb (n + 1) (2 ^ 64) then some (n + 1) else none

-- `checked_add(1) == Some(epoch)`.
unfoldable pub is_next_epoch : ℕ → ℕ → Bool
unfolding checked_suc
is_next_epoch current epoch = elim (checked_suc current) [ some n ↦ n == epoch | none ↦ false ]

-- The derived equality of two leaves, and of two expected states.
unfoldable pub leaf_eq : MlsRosterLeafV1 → MlsRosterLeafV1 → Bool
leaf_eq a b =
    a.leaf_index == b.leaf_index
    && (bytes_eq a.credential_identity b.credential_identity
        && bytes_eq a.signature_public_key b.signature_public_key)

unfoldable pub expected_eq : MlsExpectedRosterStateV1 → MlsExpectedRosterStateV1 → Bool
expected_eq a b =
    bytes_eq a.group_id b.group_id
    && (a.epoch == b.epoch && bytes_eq a.digest_sha256 b.digest_sha256)

unfoldable pub expected : MlsRosterSummaryV1 → MlsExpectedRosterStateV1
expected roster = record {
  group_id = roster.group_id;
  epoch = roster.epoch;
  digest_sha256 = roster.digest_sha256;
}

-- The loop over the two optional hashes.
unfoldable pub fixed_if_some : Option Bytes → Checked
fixed_if_some none = ok tt
fixed_if_some (some hash) = fixed hash 32

-- `history.push(replace(&mut current, resulting))`, then the oldest roster goes if there is one too
-- many.
unfoldable pub trim : ℕ → List MlsRosterSummaryV1 → List MlsRosterSummaryV1
trim retention [] = []
trim retention (r ∷ rs) = if ltb retention (length (r ∷ rs)) then rs else r ∷ rs

unfoldable pub pushed : LocalGroupState → MlsRosterSummaryV1 → LocalGroupState
pushed s resulting = record s {
  current = resulting;
  history = trim s.retention (s.history ++ s.current ∷ []);
  pending = none;
}

unfoldable pub find_epoch : ℕ → List MlsRosterSummaryV1 → Option MlsRosterSummaryV1
find_epoch epoch [] = none
find_epoch epoch (r ∷ rs) = if r.epoch == epoch then some r else find_epoch epoch rs

-- How many past rosters are retained. `join_epoch` is at most `current.epoch` where this is read.
abbrev pub history_count : LocalGroupState → ℕ
history_count s = min (s.current.epoch - s.join_epoch) s.retention

module _ (sha256 : Bytes → Bytes) where
  unfoldable pub validate_roster : MlsRosterSummaryV1 → Checked
  validate_roster roster = do
    fixed roster.group_id 16
    fixed roster.digest_sha256 32
    guard (not (length roster.leaves == 0 || ltb max_leaves (length roster.leaves))) limit_exceeded
    validate_leaves roster.leaves
    hash ←
        map_err (λ _. invalid_storage_snapshot)
          (mls_roster_digest_v1 sha256 roster.group_id roster.epoch roster.leaves)
    guard (bytes_eq hash roster.digest_sha256) invalid_storage_snapshot

  -- The loop over the history, from the index that it has reached.
  unfoldable pub validate_history : LocalGroupState → ℕ → List MlsRosterSummaryV1 → Checked
  validate_history s index [] = ok tt
  validate_history s index (roster ∷ rosters) = do
    validate_roster roster
    guard
        (bytes_eq roster.group_id s.group_id
          && roster.epoch == s.current.epoch - history_count s + index)
        invalid_storage_snapshot
    validate_history s (suc index) rosters

  unfoldable pub validate_pending : LocalGroupState → Option PendingRecord → Checked
  validate_pending s none = ok tt
  validate_pending s (some p) = do
    let b = p.binding
    validate_roster p.proposed_roster
    opaque_id b.transition.command_id
    fixed b.transition.context_sha256 32
    fixed b.commit_sha256 32
    fixed b.aad_sha256 32
    fixed p.preparation_base_sha256 32
    fixed p.upstream_pending_sha256 32
    fixed_if_some b.welcome_sha256
    fixed_if_some b.group_info_sha256
    guard
        (bytes_eq b.group_id s.group_id
          && (bytes_eq b.incarnation_id s.incarnation_id
              && (expected_eq b.previous_state (expected s.current)
                  && (any (λ leaf. leaf_eq leaf b.author) s.current.leaves
                      && (bytes_eq p.proposed_roster.group_id s.group_id
                          && is_next_epoch s.current.epoch p.proposed_roster.epoch)))))
        pending_binding_mismatch

  unfoldable pub validate : LocalGroupState → Checked
  validate s = do
    validate_retention s.retention
    fixed s.group_id 16
    opaque_id s.incarnation_id
    validate_roster s.current
    guard (bytes_eq s.current.group_id s.group_id && leb s.join_epoch s.current.epoch)
        invalid_storage_snapshot
    guard (length s.history == history_count s) invalid_storage_snapshot
    validate_history s 0 s.history
    validate_pending s s.pending

  -- `LocalGroupState::new`.
  unfoldable pub new : Bytes → ℕ → MlsRosterSummaryV1 → Result MlsErrorCode LocalGroupState
  new incarnation_id retention current = do
    let value : LocalGroupState = record {
      group_id = current.group_id;
      incarnation_id = incarnation_id;
      retention = retention;
      join_epoch = current.epoch;
      current = current;
      history = [];
      pending = none;
    }
    validate value
    ok value

  -- The checks of `advance` that come before it changes the state.
  unfoldable pub advance_checks : LocalGroupState → MlsRosterSummaryV1 → Checked
  advance_checks s resulting = do
    validate s
    validate_roster resulting
    guard (bytes_eq resulting.group_id s.group_id) group_mismatch
    guard (is_next_epoch s.current.epoch resulting.epoch) required_commit_epoch_mismatch

  abbrev advanced : LocalGroupState → MlsRosterSummaryV1 → Checked → Checked × LocalGroupState
  advanced s resulting (err e) = (err e, s)
  advanced s resulting (ok _) = (validate (pushed s resulting), pushed s resulting)

  unfoldable pub advance : LocalGroupState → MlsRosterSummaryV1 → Checked × LocalGroupState
  advance s resulting = advanced s resulting (advance_checks s resulting)

  unfoldable pub message_roster : LocalGroupState → ℕ → Result MlsErrorCode MlsRosterSummaryV1
  message_roster s epoch = do
    validate s
    if epoch == s.current.epoch
        then ok s.current
        else if ltb s.current.epoch epoch
        then err future_message_epoch
        else ok_or (find_epoch epoch s.history) past_epoch_unavailable
