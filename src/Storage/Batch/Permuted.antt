-- ===== src/Storage/Batch/Permuted.antt =====
-- The sorts of rust/src/api/storage.rs keep every entry and every key.
use mathlib.Core.List.{Perm}
use mathlib.Core.List.Perm
use openmls_dart.Prelude.{List, [], ◌∷◌, map, Bytes, bytes_le, Bool-cases, inl, inr}
use openmls_dart.Storage.Snapshot.{MlsStorageEntry}
use openmls_dart.Storage.Batch.{entry_row, insert_entry, sort_entries, insert_key, sort_keys}

insert_key-Perm : (k : Bytes) (ks : List Bytes) → Perm (insert_key k ks) (k ∷ ks)
unfolding insert_key
insert_key-Perm k [] = Perm.rfl
insert_key-Perm k (x ∷ xs) = elim (Bool-cases (bytes_le k x)) [
  | inl le ↦ rw le Perm.rfl
  | inr gt ↦ rw gt (Perm.trans (Perm.cons x (insert_key-Perm k xs)) (Perm.swap k x xs))
]

pub sort_keys-Perm : (ks : List Bytes) → Perm (sort_keys ks) ks
unfolding sort_keys
sort_keys-Perm [] = Perm.rfl
sort_keys-Perm (k ∷ ks) =
    Perm.trans (insert_key-Perm k (sort_keys ks)) (Perm.cons k (sort_keys-Perm ks))

insert_entry-Perm :
    (e : MlsStorageEntry) (es : List MlsStorageEntry)
    → Perm (map entry_row (insert_entry e es)) (entry_row e ∷ map entry_row es)
unfolding insert_entry
insert_entry-Perm e [] = Perm.rfl
insert_entry-Perm e (x ∷ xs) = elim (Bool-cases (bytes_le e.key x.key)) [
  | inl le ↦ rw le Perm.rfl
  | inr gt ↦ rw gt (
      Perm.trans (Perm.cons (entry_row x) (insert_entry-Perm e xs))
        (Perm.swap (entry_row e) (entry_row x) (map entry_row xs)))
]

pub sort_entries-Perm :
    (es : List MlsStorageEntry) → Perm (map entry_row (sort_entries es)) (map entry_row es)
unfolding sort_entries
sort_entries-Perm [] = Perm.rfl
sort_entries-Perm (e ∷ es) =
    Perm.trans (insert_entry-Perm e (sort_entries es))
      (Perm.cons (entry_row e) (sort_entries-Perm es))
