-- ===== src/Storage/Snapshot.antt =====
-- `SnapshotStorageProvider` of rust/src/snapshot_storage.rs: the rows that an operation was given,
-- the rows that it has now, and the difference of the two. Zeroization is not modelled.
use openmls_dart.Prelude.{
  Bool, true, not, Option, none, some, List, [], ◌∷◌, map, Bytes, bytes_eq, keep, starts_with,
  if◌then◌else◌,
}
use openmls_dart.Storage.Rows.{
  Row, Rows, get, insert, remove, contains_key, IsMap, insert-IsMap, remove-IsMap,
}
use openmls_dart.Storage.Labels.{is_global_key}

-- `MlsStorageEntry`: one row owned by the caller.
pub record MlsStorageEntry : Type 0 where
  pub key : Bytes
  pub value : Bytes
  pub group_id : Option Bytes

pub record SnapshotStorageProvider : Type 0 where
  pub initial : Rows
  pub current : Rows

pub record StorageUpdates : Type 0 where
  pub upserts : List Row
  pub deletes : List Bytes

-- `into_iter().collect()`: of two rows with one key the later one stays.
unfoldable pub collect : Rows → List Row → Rows
collect m [] = m
collect m ((k, v) ∷ rows) = collect (insert k v m) rows

unfoldable pub from_entries : List Row → SnapshotStorageProvider
from_entries entries = let rows = collect [] entries in record { initial = rows; current = rows }

unfoldable pub kv_write : Bytes → Bytes → SnapshotStorageProvider → SnapshotStorageProvider
kv_write k v p = record p { current = insert k v p.current }

unfoldable pub kv_read : Bytes → SnapshotStorageProvider → Option Bytes
kv_read k p = get k p.current

unfoldable pub kv_delete : Bytes → SnapshotStorageProvider → SnapshotStorageProvider
kv_delete k p = record p { current = remove k p.current }

unfoldable pub write_opaque : Bytes → Bytes → SnapshotStorageProvider → SnapshotStorageProvider
write_opaque k v p = record p { current = insert k v p.current }

unfoldable pub read_opaque : Bytes → SnapshotStorageProvider → Option Bytes
read_opaque k p = get k p.current

unfoldable pub delete_opaque : Bytes → SnapshotStorageProvider → SnapshotStorageProvider
delete_opaque k p = record p { current = remove k p.current }

unfoldable pub opaque_keys_with_prefix : Bytes → SnapshotStorageProvider → List Bytes
opaque_keys_with_prefix prefix p = keep (starts_with prefix) (map (λ (r : Row). r.0) p.current)

abbrev pub snapshot_entry : Bytes → Row → MlsStorageEntry
snapshot_entry group_id (k, v) = record {
  key = k;
  value = v;
  group_id = if is_global_key k then none else some group_id;
}

unfoldable pub snapshot_entries : Bytes → SnapshotStorageProvider → List MlsStorageEntry
snapshot_entries group_id p = map (snapshot_entry group_id) p.current

-- The test of the first loop of `into_updates`: the row is new or its value has changed.
abbrev pub is_upsert : Rows → Row → Bool
is_upsert initial (k, v) = elim (get k initial) [
  | some old_value ↦ not (bytes_eq old_value v)
  | none ↦ true
]

-- The test of its second loop: the row is gone.
abbrev pub is_delete : Rows → Row → Bool
is_delete current (k, v) = not (contains_key k current)

unfoldable pub into_updates : SnapshotStorageProvider → StorageUpdates
into_updates p = record {
  upserts = keep (is_upsert p.initial) p.current;
  deletes = map (λ (r : Row). r.0) (keep (is_delete p.current) p.initial);
}

-- Both sides of a provider are maps. Every operation keeps this.
pub record IsProvider (p : SnapshotStorageProvider) : Type 0 where
  pub initial_map : IsMap p.initial
  pub current_map : IsMap p.current

collect-IsMap : (m : Rows) (rows : List Row) → IsMap m → IsMap (collect m rows)
unfolding collect
collect-IsMap m [] h = h
collect-IsMap m ((k, v) ∷ rows) h = collect-IsMap (insert k v m) rows (insert-IsMap k v m h)

pub from_entries-IsProvider : (rows : List Row) → IsProvider (from_entries rows)
unfolding from_entries
from_entries-IsProvider rows = record {
  initial_map = collect-IsMap [] rows tt;
  current_map = collect-IsMap [] rows tt;
}

pub kv_write-IsProvider :
    (k v : Bytes) (p : SnapshotStorageProvider) → IsProvider p → IsProvider (kv_write k v p)
unfolding kv_write
kv_write-IsProvider k v p h = record {
  initial_map = h.initial_map;
  current_map = insert-IsMap k v p.current h.current_map;
}

pub kv_delete-IsProvider :
    (k : Bytes) (p : SnapshotStorageProvider) → IsProvider p → IsProvider (kv_delete k p)
unfolding kv_delete
kv_delete-IsProvider k p h = record {
  initial_map = h.initial_map;
  current_map = remove-IsMap k p.current h.current_map;
}
