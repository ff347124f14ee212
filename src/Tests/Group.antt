-- ===== src/Tests/Group.antt =====
-- A small group: rosters of rust/src/api/group_e2ee.rs and a state of rust/src/local_group_state.rs.
-- The hash is a checksum, which is enough to run the code.
use openmls_dart.Prelude.{
  ℕ, ◌+◌, ◌-◌, ◌%◌, ◌<◌, ◌≤◌, ◌≡◌, ◌⊎◌, ◌↔◌, refl, none, some, List, [], ◌∷◌, ◌++◌, replicate,
  Bytes, bytes_eq, to_be_bytes, ok, err, arith,
}
use openmls_dart.Storage.Snapshot.{SnapshotStorageProvider, read_opaque}
use openmls_dart.Group.Errors.{MlsErrorCode, future_message_epoch, past_epoch_unavailable}
use openmls_dart.Group.Roster.{
  MlsRosterLeafV1, MlsRosterSummaryV1, validate_leaves_from, validate_canonical_leaves, checked_u32,
  hash_len_prefixed, hash_leaves, roster_preimage, roster_digest, mls_roster_digest_v1,
  roster_domain_v1,
}
use openmls_dart.Group.Roster.Canonical.{IsCanonical, validate_canonical_leaves_iff}
use openmls_dart.Group.Roster.Preimage.{roster_preimage_injective}
use openmls_dart.Group.State.{
  LocalGroupState, PendingRecord, fixed, opaque_id, validate_retention, validate_leaf,
  validate_leaves, checked_suc, is_next_epoch, leaf_eq, expected_eq, expected, fixed_if_some, trim,
  pushed, validate_roster, validate_history, validate_pending, validate, new, advance_checks,
  advance, message_roster,
}
use openmls_dart.Group.State.WellFormed.{IsWellFormed, validate-IsWellFormed}
use openmls_dart.Group.State.Valid.{IsState, validate_iff}
use openmls_dart.Group.State.Advance.{CanAdvance, advance_outcome}
use openmls_dart.Group.State.Messages.{oldest_epoch, IsAt, message_roster_exact}
use openmls_dart.Group.State.Log.{created, moved, newest, Lives-history}
use openmls_dart.Group.Retry.{validate_wire, write_checks, write_retry_rows, retry_bytes}
use openmls_dart.Group.Retry.Rows.{row_after, write_retry_rows_atomic, retry_bytes-write_retry_rows}

checksum : ℕ → Bytes → ℕ
checksum n [] = n
checksum n (b ∷ bs) = checksum ((n + b) % 256) bs

abbrev toy_sha256 : Bytes → Bytes
toy_sha256 bs = replicate 32 (checksum 0 bs)

abbrev group : Bytes
group = replicate 16 7

abbrev member : ℕ → MlsRosterLeafV1
member n = record {
  leaf_index = n;
  credential_identity = replicate 45 n;
  signature_public_key = replicate 32 n;
}

abbrev members : List MlsRosterLeafV1
members = member 1 ∷ member 4 ∷ []

abbrev roster : ℕ → MlsRosterSummaryV1
roster epoch = record {
  group_id = group;
  epoch = epoch;
  leaves = members;
  digest_sha256 = replicate 32 (137 + epoch);
}

abbrev at_five : LocalGroupState
at_five = record {
  group_id = group;
  incarnation_id = 1 ∷ [];
  retention = 2;
  join_epoch = 5;
  current = roster 5;
  history = [];
  pending = none;
}

abbrev at_six : LocalGroupState
at_six = record at_five { current = roster 6; history = roster 5 ∷ [] }

abbrev commit : Bytes
commit = 1 ∷ 2 ∷ 3 ∷ []

abbrev welcome : Bytes
welcome = 4 ∷ []

abbrev pending_six : PendingRecord
pending_six = record {
  binding = record {
    group_id = group;
    incarnation_id = 1 ∷ [];
    transition = record { command_id = 8 ∷ []; context_sha256 = replicate 32 9 };
    author = member 4;
    previous_state = record { group_id = group; epoch = 5; digest_sha256 = replicate 32 142 };
    commit_sha256 = replicate 32 6;
    aad_sha256 = replicate 32 9;
    welcome_sha256 = some (replicate 32 4);
    group_info_sha256 = none;
  };
  proposed_roster = roster 6;
  preparation_base_sha256 = replicate 32 9;
  upstream_pending_sha256 = replicate 32 9;
}

abbrev preparing : LocalGroupState
preparing = record at_five { pending = some pending_six }

abbrev empty : SnapshotStorageProvider
empty = record { initial = []; current = [] }

members_canonical : validate_canonical_leaves members ≡ ok tt
unfolding validate_canonical_leaves validate_leaves_from bytes_eq
members_canonical = refl

validate_canonical_leaves_iff_example :
    (validate_canonical_leaves members ≡ ok tt) ↔ IsCanonical members
validate_canonical_leaves_iff_example = validate_canonical_leaves_iff members

abbrev hashed : Bytes
hashed =
    roster_domain_v1
    ++ (0 ∷ 0 ∷ 0 ∷ 2 ∷ 7 ∷ 7 ∷ [])
    ++ (0 ∷ 0 ∷ 0 ∷ 0 ∷ 0 ∷ 0 ∷ 0 ∷ 5 ∷ [])
    ++ (0 ∷ 0 ∷ 0 ∷ 1 ∷ [])
    ++ (0 ∷ 0 ∷ 0 ∷ 3 ∷ [])
    ++ (0 ∷ 0 ∷ 0 ∷ 1 ∷ 8 ∷ [])
    ++ (0 ∷ 0 ∷ 0 ∷ 1 ∷ 9 ∷ [])

abbrev pair_group : Bytes
pair_group = 7 ∷ 7 ∷ []

abbrev one_leaf : List MlsRosterLeafV1
one_leaf =
    record { leaf_index = 3; credential_identity = 8 ∷ []; signature_public_key = 9 ∷ [] } ∷ []

preimage_of_one : roster_preimage (7 ∷ 7 ∷ []) 5 one_leaf ≡ ok hashed
unfolding roster_preimage hash_leaves hash_len_prefixed checked_u32 to_be_bytes
preimage_of_one = refl

roster_preimage_injective_example :
    (pair_group ≡ pair_group) × (5 ≡ at_five.join_epoch) × (one_leaf ≡ one_leaf)
roster_preimage_injective_example =
    roster_preimage_injective pair_group pair_group 5 5 one_leaf one_leaf hashed (omega arith)
      (omega arith) (omega arith, tt) (omega arith, tt) preimage_of_one preimage_of_one

at_five_valid : validate toy_sha256 at_five ≡ ok tt
unfolding validate validate_retention validate_roster validate_leaves validate_leaf validate_history
    validate_pending fixed opaque_id fixed_if_some expected expected_eq leaf_eq is_next_epoch
    checked_suc mls_roster_digest_v1 roster_digest roster_preimage hash_leaves hash_len_prefixed
    checked_u32 validate_canonical_leaves validate_leaves_from bytes_eq to_be_bytes checksum
at_five_valid = refl

at_six_valid : validate toy_sha256 at_six ≡ ok tt
unfolding validate validate_retention validate_roster validate_leaves validate_leaf validate_history
    validate_pending fixed opaque_id fixed_if_some expected expected_eq leaf_eq is_next_epoch
    checked_suc mls_roster_digest_v1 roster_digest roster_preimage hash_leaves hash_len_prefixed
    checked_u32 validate_canonical_leaves validate_leaves_from bytes_eq to_be_bytes checksum
at_six_valid = refl

preparing_valid : validate toy_sha256 preparing ≡ ok tt
unfolding validate validate_retention validate_roster validate_leaves validate_leaf validate_history
    validate_pending fixed opaque_id fixed_if_some expected expected_eq leaf_eq is_next_epoch
    checked_suc mls_roster_digest_v1 roster_digest roster_preimage hash_leaves hash_len_prefixed
    checked_u32 validate_canonical_leaves validate_leaves_from bytes_eq to_be_bytes checksum
preparing_valid = refl

validate_iff_example : (validate toy_sha256 preparing ≡ ok tt) ↔ IsState toy_sha256 preparing
validate_iff_example = validate_iff toy_sha256 preparing

advance_outcome_example :
    (CanAdvance toy_sha256 preparing (roster 6)
      × (advance toy_sha256 preparing (roster 6) ≡ (ok tt, pushed preparing (roster 6)))
      × IsWellFormed toy_sha256 (pushed preparing (roster 6)))
    ⊎ ((¬ CanAdvance toy_sha256 preparing (roster 6))
        × ((e : MlsErrorCode) × (advance toy_sha256 preparing (roster 6) ≡ (err e, preparing))))
advance_outcome_example = advance_outcome toy_sha256 preparing (roster 6)

message_roster_exact_example :
    ((5 ≡ at_six.current.epoch) × (message_roster toy_sha256 at_six 5 ≡ ok at_six.current))
    ⊎ ((at_six.current.epoch < 5) × (message_roster toy_sha256 at_six 5 ≡ err future_message_epoch))
    ⊎ ((5 < oldest_epoch at_six)
        × (message_roster toy_sha256 at_six 5 ≡ err past_epoch_unavailable))
    ⊎ ((r : MlsRosterSummaryV1) × (oldest_epoch at_six ≤ 5)
        × (5 < at_six.current.epoch)
        × (r.epoch ≡ 5)
        × IsAt at_six.history (5 - oldest_epoch at_six) r
        × (message_roster toy_sha256 at_six 5 ≡ ok r))
message_roster_exact_example =
    message_roster_exact toy_sha256 at_six 5 (validate-IsWellFormed toy_sha256 at_six at_six_valid)

created_at_five : new toy_sha256 (1 ∷ []) 2 (roster 5) ≡ ok at_five
unfolding new validate validate_retention validate_roster validate_leaves validate_leaf
    validate_history validate_pending fixed opaque_id fixed_if_some expected expected_eq leaf_eq
    is_next_epoch checked_suc mls_roster_digest_v1 roster_digest roster_preimage hash_leaves
    hash_len_prefixed checked_u32 validate_canonical_leaves validate_leaves_from bytes_eq
    to_be_bytes checksum
created_at_five = refl

advanced_to_six : advance toy_sha256 at_five (roster 6) ≡ (ok tt, at_six)
unfolding advance advance_checks pushed trim validate validate_retention validate_roster
    validate_leaves validate_leaf validate_history validate_pending fixed opaque_id fixed_if_some
    expected expected_eq leaf_eq is_next_epoch checked_suc mls_roster_digest_v1 roster_digest
    roster_preimage hash_leaves hash_len_prefixed checked_u32 validate_canonical_leaves
    validate_leaves_from bytes_eq to_be_bytes checksum
advanced_to_six = refl

Lives-history_example : IsWellFormed toy_sha256 at_six × (at_six.history ≡ newest 2 (roster 5 ∷ []))
Lives-history_example =
    Lives-history toy_sha256 (1 ∷ []) 2 (roster 5 ∷ []) at_six
      (moved (roster 6) (created (roster 5) created_at_five) advanced_to_six)

wires_written : (write_retry_rows toy_sha256 preparing commit (some welcome) none empty).0 ≡ ok tt
unfolding write_retry_rows write_checks validate_wire validate validate_retention validate_roster
    validate_leaves validate_leaf validate_history validate_pending fixed opaque_id fixed_if_some
    expected expected_eq leaf_eq is_next_epoch checked_suc mls_roster_digest_v1 roster_digest
    roster_preimage hash_leaves hash_len_prefixed checked_u32 validate_canonical_leaves
    validate_leaves_from bytes_eq to_be_bytes checksum
wires_written = refl

write_retry_rows_atomic_example :
    ((write_checks toy_sha256 preparing commit (some welcome) none ≡ ok tt)
      × ((write_retry_rows toy_sha256 preparing commit (some welcome) none empty).0 ≡ ok tt)
      × ((j : Bytes)
          → read_opaque j (write_retry_rows toy_sha256 preparing commit (some welcome) none empty).1
            ≡ row_after group j (some commit) (some welcome) none (read_opaque j empty)))
    ⊎ ((e : MlsErrorCode) × (write_retry_rows toy_sha256 preparing commit (some welcome) none empty
          ≡ (err e, empty)))
write_retry_rows_atomic_example =
    write_retry_rows_atomic toy_sha256 preparing commit (some welcome) none empty

retry_bytes-write_retry_rows_example :
    retry_bytes toy_sha256 preparing
      (write_retry_rows toy_sha256 preparing commit (some welcome) none empty).1
    ≡ ok (record { commit = commit; welcome = some welcome; info = none })
retry_bytes-write_retry_rows_example =
    retry_bytes-write_retry_rows toy_sha256 preparing commit (some welcome) none empty wires_written
