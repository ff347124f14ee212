-- ===== src/Storage/Batch/Sorted.antt =====
-- The shape of the batch that rust/src/api/storage.rs returns, and when it returns none.
use mathlib.Core.Path.{subst}
use mathlib.Core.List.{Perm}
use openmls_dart.Prelude.{
  ◌≡◌, refl, ap, ◌⊎◌, inl, inr, true, not, ◌||◌, Option, none, some, List, [], ◌∷◌, map, arith,
  Bytes, bytes_le, bytes_le-total, any, All, is_some, Bool-cases, if◌then◌else◌, ok, err,
}
use openmls_dart.Storage.Rows.{Row, Rows}
use openmls_dart.Storage.Labels.{is_global_key}
use openmls_dart.Storage.Snapshot.{MlsStorageEntry, StorageUpdates}
use openmls_dart.Storage.Batch.Permuted.{sort_keys-Perm, sort_entries-Perm}
use openmls_dart.Storage.Batch.{
  MlsStorageBatch, group_state_without_group_id, insert_entry, sort_entries, insert_key, sort_keys,
  entry_row, scoped_entries, batch_from_updates, mls_storage_format_version,
}

-- Each key is at most the next.
abbrev pub IsSorted : List Bytes → Type 0
IsSorted [] = Unit
IsSorted (x ∷ []) = Unit
IsSorted (x ∷ y ∷ ys) = (bytes_le x y ≡ true) × IsSorted (y ∷ ys)

abbrev pub entry_key : MlsStorageEntry → Bytes
entry_key e = e.key

insert_key-IsSorted : (k : Bytes) (ks : List Bytes) → IsSorted ks → IsSorted (insert_key k ks)
unfolding insert_key
insert_key-IsSorted k [] h = tt
insert_key-IsSorted k (x ∷ []) h = ground (arith, bytes_le-total k x)
insert_key-IsSorted k (x ∷ y ∷ ys) h =
    ground (arith, bytes_le-total k x, insert_key-IsSorted k (y ∷ ys) h.1)

sort_keys-IsSorted : (ks : List Bytes) → IsSorted (sort_keys ks)
unfolding sort_keys
sort_keys-IsSorted [] = tt
sort_keys-IsSorted (k ∷ ks) = insert_key-IsSorted k (sort_keys ks) (sort_keys-IsSorted ks)

map-insert_entry :
    (e : MlsStorageEntry) (es : List MlsStorageEntry)
    → map entry_key (insert_entry e es) ≡ insert_key e.key (map entry_key es)
unfolding insert_entry insert_key
map-insert_entry e [] = refl
map-insert_entry e (x ∷ xs) = ground (arith, map-insert_entry e xs)

sort_entries-IsSorted : (es : List MlsStorageEntry) → IsSorted (map entry_key (sort_entries es))
unfolding sort_entries
sort_entries-IsSorted [] = tt
sort_entries-IsSorted (e ∷ es) =
    rw (map-insert_entry e (sort_entries es))
      (insert_key-IsSorted e.key (map entry_key (sort_entries es)) (sort_entries-IsSorted es))

-- An entry carries the operation's group exactly if its row is not installation-global.
abbrev pub IsScoped : Option Bytes → MlsStorageEntry → Type 0
IsScoped g e = e.group_id ≡ (if is_global_key e.key then none else g)

insert_entry-IsScoped :
    (g : Option Bytes) (e : MlsStorageEntry) (es : List MlsStorageEntry)
    → IsScoped g e
    → All (IsScoped g) es
    → All (IsScoped g) (insert_entry e es)
unfolding insert_entry
insert_entry-IsScoped g e [] h hs = (h, tt)
insert_entry-IsScoped g e (x ∷ xs) h hs = elim (Bool-cases (bytes_le e.key x.key)) [
  | inl le ↦ rw le (h, hs)
  | inr gt ↦ rw gt (hs.0, insert_entry-IsScoped g e xs h hs.1)
]

sort_entries-IsScoped :
    (g : Option Bytes) (es : List MlsStorageEntry)
    → All (IsScoped g) es
    → All (IsScoped g) (sort_entries es)
unfolding sort_entries
sort_entries-IsScoped g [] h = tt
sort_entries-IsScoped g (e ∷ es) h =
    insert_entry-IsScoped g e (sort_entries es) h.0 (sort_entries-IsScoped g es h.1)

scope_row :
    (g : Option Bytes) (k v : Bytes) (rows : Rows) (es : List MlsStorageEntry)
    → (is_some g || is_global_key k) ≡ true
    → scoped_entries g rows ≡ some es
    → (map entry_row es ≡ rows) × All (IsScoped g) es
    → (es' : List MlsStorageEntry) × (scoped_entries g ((k, v) ∷ rows) ≡ some es')
      × (map entry_row es' ≡ (k, v) ∷ rows)
      × All (IsScoped g) es'
unfolding scoped_entries
scope_row none k v rows es h e (same, sc) = (
  record { key = k; value = v; group_id = none } ∷ es,
  rw (e, h),
  ap (λ t. (k, v) ∷ t) same,
  (rw h refl, sc),
)
scope_row (some g) k v rows es h e (same, sc) = elim (Bool-cases (is_global_key k)) [
  | inl t ↦ (
    record { key = k; value = v; group_id = none } ∷ es,
    rw (e, t),
    ap (λ t. (k, v) ∷ t) same,
    (rw t refl, sc),
  )
  | inr n ↦ (
    record { key = k; value = v; group_id = some g } ∷ es,
    rw (e, n),
    ap (λ t. (k, v) ∷ t) same,
    (rw n refl, sc),
  )
]

-- Rows that need no group, or have one, are all scoped.
scoped_entries_total :
    (g : Option Bytes) (rows : Rows)
    → (is_some g || not (any (λ (r : Row). not (is_global_key r.0)) rows)) ≡ true
    → (es : List MlsStorageEntry) × (scoped_entries g rows ≡ some es)
      × (map entry_row es ≡ rows)
      × All (IsScoped g) es
unfolding scoped_entries
scoped_entries_total g [] h = ([], refl, refl, tt)
scoped_entries_total g ((k, v) ∷ rows) h =
    let (es, e, same, sc) = scoped_entries_total g rows (ground arith) in
    scope_row g k v rows es (ground arith) e (same, sc)

-- The rows to upsert hold a row that is not installation-global, and there is no group for it.
abbrev pub LacksGroup : Option Bytes → Rows → Type 0
LacksGroup g rows = (g ≡ none) × (any (λ (r : Row). not (is_global_key r.0)) rows ≡ true)

-- The batch for an operation's changes.
pub record IsBatchOf (u : StorageUpdates) (g : Option Bytes) (d : List Bytes) (b : MlsStorageBatch)
    : Type 0 where
  pub upserted : Perm (map entry_row b.upserts) u.upserts
  pub upserts_sorted : IsSorted (map entry_key b.upserts)
  pub scoped : All (IsScoped g) b.upserts
  pub deleted : Perm b.deletes u.deletes
  pub deletes_sorted : IsSorted b.deletes
  pub groups : b.deleted_group_ids ≡ d
  pub version : b.storage_format_version ≡ 1

batch_of :
    (u : StorageUpdates) (g : Option Bytes) (d : List Bytes) (es : List MlsStorageEntry)
    → (is_some g || not (any (λ (r : Row). not (is_global_key r.0)) u.upserts)) ≡ true
    → scoped_entries g u.upserts ≡ some es
    → map entry_row es ≡ u.upserts
    → All (IsScoped g) es
    → (b : MlsStorageBatch) × (batch_from_updates u g d ≡ ok (some b)) × IsBatchOf u g d b
unfolding batch_from_updates
batch_of u g d es allowed e same sc = (
  record {
    upserts = sort_entries es;
    deletes = sort_keys u.deletes;
    deleted_group_ids = d;
    storage_format_version = mls_storage_format_version;
  },
  rw (allowed, e),
  record {
    upserted = subst (λ t. Perm (map entry_row (sort_entries es)) t) same (sort_entries-Perm es);
    upserts_sorted = sort_entries-IsSorted es;
    scoped = sort_entries-IsScoped g es sc;
    deleted = sort_keys-Perm u.deletes;
    deletes_sorted = sort_keys-IsSorted u.deletes;
    groups = refl;
    version = refl;
  },
)

-- The result of an operation's changes. Without a group ID an upsert of a row that is not
-- installation-global is refused, and nothing is returned. In every other case a batch is returned,
-- never a panic: its upserts are exactly the rows to upsert and its deletes exactly the keys to
-- delete, each sorted by key; an upsert has the operation's group unless its row is
-- installation-global; the deleted groups are the ones given, and the format version is 1.
pub batch_from_updates_outcome :
    (u : StorageUpdates) (g : Option Bytes) (d : List Bytes)
    → (LacksGroup g u.upserts × (batch_from_updates u g d ≡ err group_state_without_group_id))
      ⊎ ((¬ LacksGroup g u.upserts)
          × ((b : MlsStorageBatch) × (batch_from_updates u g d ≡ ok (some b)) × IsBatchOf u g d b))
unfolding batch_from_updates
batch_from_updates_outcome u g d =
    elim (Bool-cases (is_some g || not (any (λ (r : Row). not (is_global_key r.0)) u.upserts))) [
      | inr refused ↦ inl ((ground arith, ground arith), rw refused)
      | inl allowed ↦
          let (es, e, same, sc) = scoped_entries_total g u.upserts allowed in
          inr (
            λ lacks. absurd (ground (arith, lacks.0, lacks.1)),
            batch_of u g d es allowed e same sc,
          )
    ]
