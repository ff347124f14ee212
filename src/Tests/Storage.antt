-- ===== src/Tests/Storage.antt =====
-- One small operation at the batch boundary of rust/src/api/storage.rs.
use openmls_dart.Prelude.{
  ◌≡◌, ◌≢◌, ◌⊎◌, ◌↔◌, refl, true, false, none, some, List, [], ◌∷◌, ◌++◌, starts_with, bytes_le,
  Bytes, bytes_eq, any, ok, err,
}
use openmls_dart.Storage.Rows.{get, insert, contains_key}
use openmls_dart.Storage.Labels.{
  build_key, is_global_key, global_labels, tree_label, psk_label, group_context_label,
}
use openmls_dart.Storage.Labels.Disjoint.{build_key_injective, is_global_key-build_key}
use openmls_dart.Storage.Snapshot.{
  MlsStorageEntry, SnapshotStorageProvider, StorageUpdates, IsProvider, from_entries, collect,
  into_updates, snapshot_entries,
}
use openmls_dart.Storage.Batch.{
  MlsStorageBatch, mls_storage_format_version, group_state_without_group_id, check_scope,
  validate_entries, validate_storage_entries, provider_from_entries, insert_entry, sort_entries,
  insert_key, sort_keys, scoped_entries, batch_from_updates, batch_from_provider,
}
use openmls_dart.Storage.Batch.Complete.{value_of, after_batch, batch_complete, batch_minimal}
use openmls_dart.Storage.Batch.Sorted.{LacksGroup, IsBatchOf, batch_from_updates_outcome}
use openmls_dart.Storage.Batch.Reload.{provider_from_entries_faithful, snapshot_reload}

abbrev tree_key : Bytes
tree_key = tree_label ++ 91 ∷ 0 ∷ 1 ∷ []

abbrev context_key : Bytes
context_key = group_context_label ++ 91 ∷ 0 ∷ 1 ∷ []

abbrev psk_key : Bytes
psk_key = psk_label ++ 92 ∷ 0 ∷ 1 ∷ []

abbrev group : Bytes
group = 7 ∷ 7 ∷ []

-- The tree has changed, the context is gone, a key is new.
abbrev operation : SnapshotStorageProvider
operation = record {
  initial = (tree_key, 1 ∷ []) ∷ (context_key, 2 ∷ []) ∷ [];
  current = (tree_key, 3 ∷ []) ∷ (psk_key, 4 ∷ []) ∷ [];
}

abbrev batch : MlsStorageBatch
batch = record {
  upserts =
      record { key = psk_key; value = 4 ∷ []; group_id = none }
      ∷ record { key = tree_key; value = 3 ∷ []; group_id = some group }
      ∷ [];
  deletes = context_key ∷ [];
  deleted_group_ids = [];
  storage_format_version = mls_storage_format_version;
}

operation-IsProvider : IsProvider operation
unfolding get bytes_eq
operation-IsProvider = record { initial_map = (refl, (refl, tt)); current_map = (refl, (refl, tt)) }

batch_of_operation : batch_from_provider operation (some group) [] ≡ ok (some batch)
unfolding batch_from_provider batch_from_updates into_updates scoped_entries sort_entries
    insert_entry sort_keys insert_key is_global_key get bytes_eq starts_with bytes_le
batch_of_operation = refl

batch_without_group : batch_from_provider operation none [] ≡ err group_state_without_group_id
unfolding batch_from_provider batch_from_updates into_updates is_global_key get bytes_eq starts_with
    bytes_le
batch_without_group = refl

batch_complete_example :
    after_batch batch context_key (get context_key operation.initial)
    ≡ get context_key operation.current
batch_complete_example =
    batch_complete operation (some group) [] batch context_key operation-IsProvider
      batch_of_operation

batch_minimal_example :
    ((v : Bytes)
      → (value_of tree_key batch.upserts ≡ some v)
        ↔ ((get tree_key operation.current ≡ some v) × (get tree_key operation.initial ≢ some v)))
    × ((any (bytes_eq tree_key) batch.deletes ≡ true) ↔ (
        (contains_key tree_key operation.initial ≡ true)
        × (contains_key tree_key operation.current ≡ false)))
batch_minimal_example =
    batch_minimal operation (some group) [] batch tree_key operation-IsProvider batch_of_operation

abbrev updates : StorageUpdates
updates = record { upserts = operation.current; deletes = context_key ∷ [] }

batch_from_updates_outcome_example :
    (LacksGroup (some group) updates.upserts
      × (batch_from_updates updates (some group) [] ≡ err group_state_without_group_id))
    ⊎ ((¬ LacksGroup (some group) updates.upserts)
        × ((b : MlsStorageBatch) × (batch_from_updates updates (some group) [] ≡ ok (some b))
            × IsBatchOf updates (some group) [] b))
batch_from_updates_outcome_example = batch_from_updates_outcome updates (some group) []

abbrev entries : List MlsStorageEntry
entries =
    record { key = tree_key; value = 1 ∷ []; group_id = some group }
    ∷ record { key = psk_key; value = 4 ∷ []; group_id = none }
    ∷ []

abbrev admitted : SnapshotStorageProvider
admitted = record {
  initial = (tree_key, 1 ∷ []) ∷ (psk_key, 4 ∷ []) ∷ [];
  current = (tree_key, 1 ∷ []) ∷ (psk_key, 4 ∷ []) ∷ [];
}

entries_accepted :
    provider_from_entries entries mls_storage_format_version (some group) ≡ ok admitted
unfolding provider_from_entries validate_storage_entries validate_entries check_scope is_global_key
    from_entries collect insert bytes_eq starts_with
entries_accepted = refl

provider_from_entries_faithful_example :
    IsProvider admitted
    × ((k : Bytes)
        → (get k admitted.initial ≡ value_of k entries)
          × (get k admitted.current ≡ value_of k entries))
provider_from_entries_faithful_example =
    provider_from_entries_faithful entries mls_storage_format_version (some group) admitted
      entries_accepted

snapshot_reload_example :
    (q : SnapshotStorageProvider) × (provider_from_entries
        (snapshot_entries group operation)
        mls_storage_format_version
        (some group)
      ≡ ok q)
    × ((k : Bytes) → get k q.current ≡ get k operation.current)
snapshot_reload_example = snapshot_reload group operation operation-IsProvider

build_key_injective_example : (tree_label ≡ tree_label) × (group ≡ group)
unfolding bytes_eq
build_key_injective_example = build_key_injective 1 tree_label tree_label group group refl refl refl

is_global_key-build_key_example :
    is_global_key (build_key 1 psk_label (5 ∷ [])) ≡ any (bytes_eq psk_label) global_labels
unfolding bytes_eq
is_global_key-build_key_example = is_global_key-build_key 1 psk_label (5 ∷ []) refl
