-- ===== src/Storage/Provider/Queue.antt =====
-- The list-valued rows of rust/src/snapshot_storage.rs, which are appended to.
use openmls_dart.Prelude.{
  ℕ, ◌≡◌, List, [], ◌∷◌, ◌++◌, Bytes, ok, Result-split, ok_injective, Option-cases, inl, inr,
}
use openmls_dart.Storage.Snapshot.{SnapshotStorageProvider, kv_read}
use openmls_dart.Storage.Labels.{own_leaf_nodes_label}
use openmls_dart.Storage.Typed.{
  Serialize, Deserialize, SerdeJson, stored_list, from_items, build_key_serde, append_to_list,
  read_list,
}
use openmls_dart.Storage.Typed.Laws.{Restores, read-write}
use openmls_dart.Storage.Provider.Lists.{append_own_leaf_node, own_leaf_nodes}

-- What serde promises of lists of byte strings.
abbrev pub RestoresLists : SerdeJson → Type 0
RestoresLists json =
    (items : List Bytes) (bytes : Bytes)
    → json.list_to_vec items ≡ ok bytes
    → json.list_from_slice bytes ≡ ok items

from_items-snoc :
    {A : Type 0} ⦃vd : Deserialize A⦄ (items : List Bytes) (item : Bytes) (xs : List A) (x : A)
    → from_items items ≡ ok xs
    → vd.from_slice item ≡ ok x
    → from_items (items ++ item ∷ []) ≡ ok (xs ++ x ∷ [])
unfolding from_items
from_items-snoc [] item xs x h e = rw (e, ← ok_injective h)
from_items-snoc ⦃vd⦄ (i ∷ items) item xs x h e = elim (Result-split (from_items ⦃vs = vd⦄ items)) [
  | inr (bad, failed) ↦ absurd (cc (rw failed at h))
  | inl (rest, good) ↦ elim (Result-split (vd.from_slice i)) [
    | inr (bad, failed) ↦ absurd (cc (rw (good, failed) at h))
    | inl (y, parsed) ↦
        rw (
          from_items-snoc items item rest x good e,
          parsed,
          ← ok_injective (rw (good, parsed) at h),
        )
  ]
]

module _ (json : SerdeJson) {K A : Type 0} ⦃ks : Serialize K⦄ ⦃vd : Deserialize A⦄ (v : ℕ)
    (label : Bytes) (key : K) (item : Bytes) (xs : List A) (x : A)
    (p : SnapshotStorageProvider) where
  -- The stored list that a successful reading saw.
  read_list-raw :
      (read_list json {A = A} v label key p).0 ≡ ok xs
      → (k : Bytes) × (raw : List Bytes) × (build_key_serde v label key ≡ ok k)
        × ((q : SnapshotStorageProvider) → stored_list json (kv_read k p) q ≡ (ok raw, q))
        × (from_items raw ≡ ok xs)
  unfolding read_list
  read_list-raw h = elim (Result-split (build_key_serde v label key)) [
    | inr (e, bad) ↦ absurd (cc (rw bad at h))
    | inl (k, good) ↦ elim (Option-cases (kv_read k p)) [
      | inl gone ↦ (k, [], good, λ q. rw gone, rw (good, gone) at h)
      | inr (bytes, there) ↦ elim (Result-split (json.list_from_slice bytes)) [
        | inr (e, bad) ↦ absurd (cc (rw (good, there, bad) at h))
        | inl (raw, listed) ↦ (k, raw, good, λ q. rw (there, listed), rw (good, there, listed) at h)
      ]
    ]
  ]

  pub read_list-append_to_list :
      RestoresLists json
      → (read_list json {A = A} v label key p).0 ≡ ok xs
      → vd.from_slice item ≡ ok x
      → (append_to_list json v label key item p).0 ≡ ok tt
      → (read_list json {A = A} v label key (append_to_list json v label key item p).1).0
        ≡ ok (xs ++ x ∷ [])
  unfolding read_list append_to_list
  read_list-append_to_list restores before parsed done =
      let (k, raw, good, stored, items) = read_list-raw before in
      elim (Result-split (json.list_to_vec (raw ++ item ∷ []))) [
        | inr (e, bad) ↦ absurd (cc (rw (good, stored p, bad) at done))
        | inl (bytes, fine) ↦
            rw (good, stored p, fine, read-write k bytes p, restores (raw ++ item ∷ []) bytes fine)
              (from_items-snoc raw item xs x items parsed)
      ]

module _ (json : SerdeJson) {G L : Type 0} ⦃gs : Serialize G⦄ ⦃ls : Serialize L⦄
    ⦃ld : Deserialize L⦄ where
  -- Where serde restores leaf nodes and lists of byte strings: if the leaf nodes of a group can be
  -- read and one is successfully appended, then the reader gives the ones that were there and after
  -- them the new one.
  pub own_leaf_nodes-append :
      (group_id : G) (leaf : L) (leaves : List L) (p : SnapshotStorageProvider)
      → RestoresLists json
      → Restores ls ld
      → (own_leaf_nodes json {L = L} group_id p).0 ≡ ok leaves
      → (append_own_leaf_node json group_id leaf p).0 ≡ ok tt
      → (own_leaf_nodes json {L = L} group_id (append_own_leaf_node json group_id leaf p).1).0
        ≡ ok (leaves ++ leaf ∷ [])
  unfolding own_leaf_nodes append_own_leaf_node
  own_leaf_nodes-append group_id leaf leaves p lists restores before done =
      elim (Result-split (ls.to_vec leaf)) [
        | inr (e, bad) ↦ absurd (cc (rw bad at done))
        | inl (item, fine) ↦ rw fine (
            read_list-append_to_list json json.current_version own_leaf_nodes_label group_id item
              leaves leaf p lists before (restores leaf item fine) (rw fine at done))
      ]
