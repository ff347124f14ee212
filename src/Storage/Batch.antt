-- ===== src/Storage/Batch.antt =====
-- The batch boundary of rust/src/api/storage.rs: a snapshot is admitted, and one batch is returned.
-- Each error stands for the message of the source with its words. The provider's crypto half has no
-- state and is left out, so `SnapshotOpenMlsProvider` is its storage.

pub mod Complete
pub mod Permuted
pub mod Sorted
pub mod Reload
use openmls_dart.Prelude.{
  ℕ, Bool, false, not, ◌||◌, Option, none, some, List, [], ◌∷◌, map, Bytes, bytes_eq, bytes_le,
  is_some, any, if◌then◌else◌, ◌==◌, Result, ok, ◌>>=◌, ◌>>◌, guard, ok_or,
}
use openmls_dart.Storage.Rows.{Row}
use openmls_dart.Storage.Labels.{is_global_key}
use openmls_dart.Storage.Snapshot.{
  MlsStorageEntry, SnapshotStorageProvider, StorageUpdates, from_entries, into_updates,
}

abbrev pub mls_storage_format_version : ℕ
mls_storage_format_version = 1

pub data StorageRefusal : Type 0 where
  unsupported_format : ℕ → StorageRefusal
  duplicate_key global_entry_has_group group_entry_in_global_operation : StorageRefusal
  entry_of_different_group group_state_without_group_id : StorageRefusal

pub record MlsStorageBatch : Type 0 where
  pub upserts : List MlsStorageEntry
  pub deletes : List Bytes
  pub deleted_group_ids : List Bytes
  pub storage_format_version : ℕ

-- `Option<&[u8]> != Some(expected)`, negated.
abbrev pub is_group : Bytes → Option Bytes → Bool
is_group expected none = false
is_group expected (some g) = bytes_eq g expected

unfoldable pub check_scope : Option Bytes → MlsStorageEntry → Result StorageRefusal (Unit {0})
check_scope expected_group_id entry =
    if is_global_key entry.key
    then guard (not (is_some entry.group_id)) global_entry_has_group
    else do
      expected ← ok_or expected_group_id group_entry_in_global_operation
      guard (is_group expected entry.group_id) entry_of_different_group

-- The `try_for_each`; `seen_keys` is the hash set.
unfoldable pub validate_entries :
    Option Bytes → List Bytes → List MlsStorageEntry → Result StorageRefusal (Unit {0})
validate_entries expected seen_keys [] = ok tt
validate_entries expected seen_keys (entry ∷ entries) = do
  guard (not (any (bytes_eq entry.key) seen_keys)) duplicate_key
  check_scope expected entry
  validate_entries expected (entry.key ∷ seen_keys) entries

unfoldable pub validate_storage_entries :
    List MlsStorageEntry → ℕ → Option Bytes → Result StorageRefusal (Unit {0})
validate_storage_entries entries version expected_group_id = do
  guard (version == mls_storage_format_version) (unsupported_format version)
  validate_entries expected_group_id [] entries

abbrev pub entry_row : MlsStorageEntry → Row
entry_row e = (e.key, e.value)

unfoldable pub provider_from_entries :
    List MlsStorageEntry → ℕ → Option Bytes → Result StorageRefusal SnapshotStorageProvider
provider_from_entries entries version expected_group_id = do
  validate_storage_entries entries version expected_group_id
  ok (from_entries (map entry_row entries))

-- `sort_by` and `sort` are stable sorts by key: what is inserted stands before an equal key.
unfoldable pub insert_entry : MlsStorageEntry → List MlsStorageEntry → List MlsStorageEntry
insert_entry e [] = e ∷ []
insert_entry e (x ∷ xs) = if bytes_le e.key x.key then e ∷ x ∷ xs else x ∷ insert_entry e xs

unfoldable pub sort_entries : List MlsStorageEntry → List MlsStorageEntry
sort_entries [] = []
sort_entries (e ∷ es) = insert_entry e (sort_entries es)

unfoldable pub insert_key : Bytes → List Bytes → List Bytes
insert_key k [] = k ∷ []
insert_key k (x ∷ xs) = if bytes_le k x then k ∷ x ∷ xs else x ∷ insert_key k xs

unfoldable pub sort_keys : List Bytes → List Bytes
sort_keys [] = []
sort_keys (k ∷ ks) = insert_key k (sort_keys ks)

-- The loop that scopes the upserts. `none` stands for the panic of `expect`.
unfoldable pub scoped_entries : Option Bytes → List Row → Option (List MlsStorageEntry)
scoped_entries group_id [] = some []
scoped_entries group_id ((k, v) ∷ rows) = elim (scoped_entries group_id rows) [
  | none ↦ none
  | some es ↦
      if is_global_key k
      then some (record { key = k; value = v; group_id = none } ∷ es)
      else elim group_id [
        | none ↦ none
        | some g ↦ some (record { key = k; value = v; group_id = some g } ∷ es)
      ]
]

-- The inner `none` is a panic.
unfoldable pub batch_from_updates :
    StorageUpdates → Option Bytes → List Bytes → Result StorageRefusal (Option MlsStorageBatch)
batch_from_updates updates group_id deleted_group_ids = do
  guard (is_some group_id || not (any (λ (r : Row). not (is_global_key r.0)) updates.upserts))
      group_state_without_group_id
  ok (elim (scoped_entries group_id updates.upserts) [
    | none ↦ none
    | some upserts ↦ some (record {
      upserts = sort_entries upserts;
      deletes = sort_keys updates.deletes;
      deleted_group_ids = deleted_group_ids;
      storage_format_version = mls_storage_format_version;
    })
  ])

unfoldable pub batch_from_provider :
    SnapshotStorageProvider
    → Option Bytes
    → List Bytes
    → Result StorageRefusal (Option MlsStorageBatch)
batch_from_provider provider group_id deleted_group_ids =
    batch_from_updates (into_updates provider) group_id deleted_group_ids
