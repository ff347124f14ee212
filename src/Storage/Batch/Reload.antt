-- ===== src/Storage/Batch/Reload.antt =====
-- Admitting a snapshot (rust/src/api/storage.rs) keeps its rows, and the rows that an operation left
-- are a snapshot that the next operation admits.
use mathlib.Core.Path.{subst}
use openmls_dart.Prelude.{
  ℕ, ◌≡◌, refl, ap, ◌∙◌, false, not, Option, none, some, List, [], ◌∷◌, map, Bytes, bytes_eq,
  bytes_eq_iff, bytes_eq_refl, any, All, arith, ok, guard, >>-eq-ok, guard-eq-ok, ◌==◌,
}
use openmls_dart.Storage.Rows.{Row, Rows, get, insert, get-insert, IsMap}
use openmls_dart.Storage.Snapshot.{
  MlsStorageEntry, SnapshotStorageProvider, IsProvider, collect, from_entries,
  from_entries-IsProvider, snapshot_entry, snapshot_entries,
}
use openmls_dart.Storage.Batch.{
  duplicate_key, entry_row, check_scope, validate_entries, validate_storage_entries,
  provider_from_entries, unsupported_format, mls_storage_format_version,
}
use openmls_dart.Storage.Batch.Complete.{value_of}

abbrev or_else : Option Bytes → Option Bytes → Option Bytes
or_else (some v) old = some v
or_else none old = old

or_else-none : (k : Bytes) (rows : Rows) → or_else (get k rows) (get k []) ≡ get k rows
unfolding get
or_else-none k rows = ground arith

-- Rows that form a map are collected whole.
get-collect :
    (k : Bytes) (m : Rows) (rows : List Row)
    → IsMap rows
    → get k (collect m rows) ≡ or_else (get k rows) (get k m)
unfolding collect get
get-collect k m [] h = refl
get-collect k m ((j, v) ∷ rows) h =
    get-collect k (insert j v m) rows h.1
    ∙ ground (arith, bytes_eq_iff j k, get-insert j k v m, h.0)

-- A row with a key that none of the list has.
abbrev IsFresh : List Bytes → Row → Type 0
IsFresh seen r = any (bytes_eq r.0) seen ≡ false

get_of_fresh :
    (k : Bytes) (seen : List Bytes) (rows : List Row)
    → All (IsFresh (k ∷ seen)) rows
    → get k rows ≡ none
unfolding get
get_of_fresh k seen [] h = refl
get_of_fresh k seen ((j, v) ∷ rows) h = ground (arith, get_of_fresh k seen rows, h.0, h.1)

unseen :
    (k : Bytes) (seen : List Bytes) (rows : List Row)
    → All (IsFresh (k ∷ seen)) rows
    → All (IsFresh seen) rows
unseen k seen [] h = tt
unseen k seen ((j, v) ∷ rows) h = (ground (arith, h.0), unseen k seen rows h.1)

validated-IsMap :
    (expected : Option Bytes) (seen : List Bytes) (es : List MlsStorageEntry)
    → validate_entries expected seen es ≡ ok tt
    → IsMap (map entry_row es) × All (IsFresh seen) (map entry_row es)
unfolding validate_entries
validated-IsMap expected seen [] h = (tt, tt)
validated-IsMap expected seen (e ∷ es) h =
    let (fresh, h') = >>-eq-ok (guard (not (any (bytes_eq e.key) seen)) duplicate_key) _ h in
    let (_, rest) = >>-eq-ok (check_scope expected e) _ h' in
    let (rows_map, rows_fresh) = validated-IsMap expected (e.key ∷ seen) es rest in
    (
      (get_of_fresh e.key seen (map entry_row es) rows_fresh, rows_map),
      (ground (arith, guard-eq-ok _ _ fresh), unseen e.key seen (map entry_row es) rows_fresh),
    )

value_of-get : (k : Bytes) (es : List MlsStorageEntry) → get k (map entry_row es) ≡ value_of k es
unfolding get value_of
value_of-get k [] = refl
value_of-get k (e ∷ es) = rw (value_of-get k es)

-- A snapshot that is admitted has every entry of the caller in the provider, under its key, on both
-- sides, and no other; and the provider is well formed.
pub provider_from_entries_faithful :
    (es : List MlsStorageEntry) (v : ℕ) (g : Option Bytes) (p : SnapshotStorageProvider)
    → provider_from_entries es v g ≡ ok p
    → IsProvider p
      × ((k : Bytes) → (get k p.initial ≡ value_of k es) × (get k p.current ≡ value_of k es))
unfolding provider_from_entries validate_storage_entries from_entries
provider_from_entries_faithful es v g p h =
    let (valid, made) = >>-eq-ok (validate_storage_entries es v g) _ h in
    let (_, entries_valid) =
      >>-eq-ok (guard (v == mls_storage_format_version) (unsupported_format v)) _ valid in
    let (rows_map, _) = validated-IsMap g [] es entries_valid in
    let e : from_entries (map entry_row es) ≡ p = cc made in
    let at : (k : Bytes) → get k (collect [] (map entry_row es)) ≡ value_of k es = λ k.
      get-collect k [] (map entry_row es) rows_map
      ∙ or_else-none k (map entry_row es)
      ∙ value_of-get k es in
    subst
      (λ q.
        IsProvider q
        × ((k : Bytes) → (get k q.initial ≡ value_of k es) × (get k q.current ≡ value_of k es)))
      e (from_entries-IsProvider (map entry_row es), λ k. (at k, at k))

IsFresh-of_get :
    (k : Bytes) (seen : List Bytes) (rows : List Row)
    → get k rows ≡ none
    → All (IsFresh seen) rows
    → All (IsFresh (k ∷ seen)) rows
unfolding get
IsFresh-of_get k seen [] h f = tt
IsFresh-of_get k seen ((j, v) ∷ rows) h f =
    (ground (arith, f.0), IsFresh-of_get k seen rows (ground arith) f.1)

validate-snapshot_entry : (g : Bytes) (r : Row) → check_scope (some g) (snapshot_entry g r) ≡ ok tt
unfolding check_scope
validate-snapshot_entry g (k, v) = ground (arith, bytes_eq_refl g)

validate-snapshot :
    (g : Bytes) (seen : List Bytes) (rows : Rows)
    → IsMap rows
    → All (IsFresh seen) rows
    → validate_entries (some g) seen (map (snapshot_entry g) rows) ≡ ok tt
unfolding validate_entries
validate-snapshot g seen [] h f = refl
validate-snapshot g seen ((k, v) ∷ rows) h f =
    rw (f.0, validate-snapshot_entry g (k, v))
      (validate-snapshot g (k ∷ seen) rows h.1 (IsFresh-of_get k seen rows h.0 f.1))

all-IsFresh : (rows : List Row) → All (IsFresh []) rows
all-IsFresh [] = tt
all-IsFresh (r ∷ rows) = (refl, all-IsFresh rows)

rows_of_snapshot : (g : Bytes) (rows : Rows) → map entry_row (map (snapshot_entry g) rows) ≡ rows
rows_of_snapshot g [] = refl
rows_of_snapshot g ((k, v) ∷ rows) = ap (λ t. (k, v) ∷ t) (rows_of_snapshot g rows)

-- Where both sides of the provider are maps, the rows that an operation left, handed out for its
-- group, are admitted as the next snapshot of that group: the next operation finds, under every key, what the first one left there.
pub snapshot_reload :
    (g : Bytes) (p : SnapshotStorageProvider)
    → IsProvider p
    → (q : SnapshotStorageProvider) × (provider_from_entries
          (snapshot_entries g p)
          mls_storage_format_version
          (some g)
        ≡ ok q)
      × ((k : Bytes) → get k q.current ≡ get k p.current)
unfolding provider_from_entries validate_storage_entries snapshot_entries from_entries
snapshot_reload g p h = (
  from_entries (map entry_row (map (snapshot_entry g) p.current)),
  rw (validate-snapshot g [] p.current h.current_map (all-IsFresh p.current)),
  λ k.
      ap (λ rows. get k (collect [] rows)) (rows_of_snapshot g p.current)
      ∙ get-collect k [] p.current h.current_map
      ∙ or_else-none k p.current,
)
