-- ===== src/Storage/Batch/Complete.antt =====
-- The batch of rust/src/api/storage.rs carries every change of the operation, and nothing else.
use openmls_dart.Prelude.{
  ◌≡◌, refl, ap, ◌∙◌, inl, inr, Bool, true, false, not, ◌||◌, Option, none, some, List, [], ◌∷◌,
  map, Bytes, bytes_eq, bytes_eq_iff, bytes_eq_comm, bytes_le_refl, is_some, keep, any, arith,
  if◌then◌else◌, ◌↔◌, ◌≢◌, ok, Option-cases,
}
use openmls_dart.Storage.Rows.{Row, Rows, get, contains_key, kept, get-keep}
use openmls_dart.Storage.Snapshot.{
  MlsStorageEntry, SnapshotStorageProvider, StorageUpdates, IsProvider, into_updates, is_upsert,
  is_delete,
}
use openmls_dart.Storage.Batch.{
  MlsStorageBatch, insert_entry, sort_entries, insert_key, sort_keys, scoped_entries,
  batch_from_updates, batch_from_provider,
}

-- The value that a list of entries gives to a key.
unfoldable pub value_of : Bytes → List MlsStorageEntry → Option Bytes
value_of k [] = none
value_of k (e ∷ es) = if bytes_eq e.key k then some e.value else value_of k es

-- What a caller finds under a key who writes the upserts and removes the deletes in its table.
apply_at : Option Bytes → Bool → Option Bytes → Option Bytes
apply_at (some v) deleted old = some v
apply_at none deleted old = if deleted then none else old

pub after_batch : MlsStorageBatch → Bytes → Option Bytes → Option Bytes
after_batch b k old = apply_at (value_of k b.upserts) (any (bytes_eq k) b.deletes) old

value_of-insert_entry :
    (k : Bytes) (e : MlsStorageEntry) (es : List MlsStorageEntry)
    → value_of k (insert_entry e es) ≡ (if bytes_eq e.key k then some e.value else value_of k es)
unfolding value_of insert_entry
value_of-insert_entry k e [] = refl
value_of-insert_entry k e (x ∷ xs) = ground (
  arith,
  bytes_eq_iff e.key k,
  bytes_eq_iff x.key k,
  bytes_le_refl k,
  value_of-insert_entry k e xs,
)

value_of-sort_entries :
    (k : Bytes) (es : List MlsStorageEntry) → value_of k (sort_entries es) ≡ value_of k es
unfolding value_of sort_entries
value_of-sort_entries k [] = refl
value_of-sort_entries k (e ∷ es) =
    value_of-insert_entry k e (sort_entries es) ∙ rw (value_of-sort_entries k es)

any-insert_key :
    (k j : Bytes) (ks : List Bytes)
    → any (bytes_eq k) (insert_key j ks) ≡ (bytes_eq k j || any (bytes_eq k) ks)
unfolding insert_key
any-insert_key k j [] = refl
any-insert_key k j (x ∷ xs) = ground (arith, any-insert_key k j xs)

any-sort_keys :
    (k : Bytes) (ks : List Bytes) → any (bytes_eq k) (sort_keys ks) ≡ any (bytes_eq k) ks
unfolding sort_keys
any-sort_keys k [] = refl
any-sort_keys k (j ∷ ks) = any-insert_key k j (sort_keys ks) ∙ rw (any-sort_keys k ks)

value_of-scoped_entries :
    (g : Option Bytes) (k : Bytes) (rows : Rows) {es : List MlsStorageEntry}
    → scoped_entries g rows ≡ some es
    → value_of k es ≡ get k rows
unfolding value_of scoped_entries get
value_of-scoped_entries g k [] h = ground arith
value_of-scoped_entries g k ((j, v) ∷ rows) h = elim (Option-cases (scoped_entries g rows)) [
  | inl n ↦ ground arith
  | inr (es', e) ↦ ground (arith, value_of-scoped_entries g k rows e)
]

any-keys :
    (k : Bytes) (rows : Rows) → any (bytes_eq k) (map (λ (r : Row). r.0) rows) ≡ contains_key k rows
unfolding get
any-keys k [] = refl
any-keys k ((j, v) ∷ rows) = ground (arith, bytes_eq_comm k j, any-keys k rows)

-- The parts of a batch that was returned.
pub batch_parts :
    (u : StorageUpdates) (g : Option Bytes) (d : List Bytes) {b : MlsStorageBatch}
    → batch_from_updates u g d ≡ ok (some b)
    → (es : List MlsStorageEntry) × (scoped_entries g u.upserts ≡ some es)
      × (b.upserts ≡ sort_entries es)
      × (b.deletes ≡ sort_keys u.deletes)
unfolding batch_from_updates
batch_parts u g d h = ground arith

-- What is upserted and what is deleted at one key, from the values found and left there.
abbrev upsert_value : Option Bytes → Option Bytes → Option Bytes
upsert_value found none = none
upsert_value none (some v) = some v
upsert_value (some w) (some v) = if bytes_eq w v then none else some v

abbrev is_deleted : Option Bytes → Option Bytes → Bool
is_deleted none left = false
is_deleted (some w) left = not (is_some left)

module _ (initial current : Rows) (k : Bytes) where
  kept-is_upsert :
      (left : Option Bytes) → kept (is_upsert initial) k left ≡ upsert_value (get k initial) left
  kept-is_upsert none = ground arith
  kept-is_upsert (some v) = ground arith

  kept-is_delete :
      (found : Option Bytes)
      → is_some (kept (is_delete current) k found) ≡ is_deleted found (get k current)
  kept-is_delete none = ground arith
  kept-is_delete (some v) = ground arith

module _ (p : SnapshotStorageProvider) (g : Option Bytes) (d : List Bytes) (k : Bytes)
    (h : IsProvider p) where
  upserts_at :
      (b : MlsStorageBatch)
      → batch_from_provider p g d ≡ ok (some b)
      → value_of k b.upserts ≡ upsert_value (get k p.initial) (get k p.current)
  unfolding batch_from_provider into_updates
  upserts_at b e =
      let (es, scoped, ups, dels) = batch_parts _ g d e in
      ap (value_of k) ups
      ∙ value_of-sort_entries k es
      ∙ value_of-scoped_entries g k (keep (is_upsert p.initial) p.current) scoped
      ∙ get-keep (is_upsert p.initial) k p.current h.current_map
      ∙ kept-is_upsert p.initial p.current k (get k p.current)

  deletes_at :
      (b : MlsStorageBatch)
      → batch_from_provider p g d ≡ ok (some b)
      → any (bytes_eq k) b.deletes ≡ is_deleted (get k p.initial) (get k p.current)
  unfolding batch_from_provider into_updates
  deletes_at b e =
      let (es, scoped, ups, dels) = batch_parts _ g d e in
      ap (any (bytes_eq k)) dels
      ∙ any-sort_keys k (map (λ (r : Row). r.0) (keep (is_delete p.current) p.initial))
      ∙ any-keys k (keep (is_delete p.current) p.initial)
      ∙ ap is_some (get-keep (is_delete p.current) k p.initial h.initial_map)
      ∙ kept-is_delete p.initial p.current k (get k p.initial)

-- Applying those values gives what was left.
applied :
    (found left : Option Bytes)
    → apply_at (upsert_value found left) (is_deleted found left) found ≡ left
unfolding apply_at
applied none none = refl
applied none (some v) = refl
applied (some w) none = refl
applied (some w) (some v) = ground (arith, bytes_eq_iff w v)

upsert_value_exact :
    (found left : Option Bytes) (v : Bytes)
    → (upsert_value found left ≡ some v) ↔ ((left ≡ some v) × (found ≢ some v))
upsert_value_exact none none v = grind arith
upsert_value_exact none (some x) v = grind arith
upsert_value_exact (some w) none v = grind arith
upsert_value_exact (some w) (some x) v = grind (arith, bytes_eq_iff w x)

is_deleted_exact :
    (found left : Option Bytes)
    → (is_deleted found left ≡ true) ↔ ((is_some found ≡ true) × (is_some left ≡ false))
is_deleted_exact none left = grind arith
is_deleted_exact (some w) none = grind arith
is_deleted_exact (some w) (some x) = grind arith

-- Where both sides of the provider are maps, a batch that is returned for an operation
-- takes the caller's rows to the operation's rows: under every key, what the upserts and deletes leave there is what the operation left there.
pub batch_complete :
    (p : SnapshotStorageProvider) (g : Option Bytes) (d : List Bytes) (b : MlsStorageBatch)
    (k : Bytes)
    → IsProvider p
    → batch_from_provider p g d ≡ ok (some b)
    → after_batch b k (get k p.initial) ≡ get k p.current
unfolding after_batch
batch_complete p g d b k h e =
    rw (upserts_at p g d k h b e, deletes_at p g d k h b e)
      (applied (get k p.initial) (get k p.current))

-- Where both sides of the provider are maps, a returned batch has no idle entries: it upserts a key
-- exactly if the operation left a value there that it did not find there, with that value, and it deletes a key exactly if the operation found a row
-- there and left none.
pub batch_minimal :
    (p : SnapshotStorageProvider) (g : Option Bytes) (d : List Bytes) (b : MlsStorageBatch)
    (k : Bytes)
    → IsProvider p
    → batch_from_provider p g d ≡ ok (some b)
    → ((v : Bytes)
        → (value_of k b.upserts ≡ some v)
          ↔ ((get k p.current ≡ some v) × (get k p.initial ≢ some v)))
      × ((any (bytes_eq k) b.deletes ≡ true)
          ↔ ((contains_key k p.initial ≡ true) × (contains_key k p.current ≡ false)))
batch_minimal p g d b k h e =
    rw (upserts_at p g d k h b e, deletes_at p g d k h b e)
      (
        upsert_value_exact (get k p.initial) (get k p.current),
        is_deleted_exact (get k p.initial) (get k p.current),
      )
