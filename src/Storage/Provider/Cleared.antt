-- ===== src/Storage/Provider/Cleared.antt =====
-- What `clear_proposal_queue` of rust/src/snapshot_storage.rs deletes, and what it keeps.
use mathlib.Core.Path.{subst}
use openmls_dart.Prelude.{
  ◌≡◌, ◌⊎◌, refl, sym, ◌∙◌, Option-cases, ℕ, List, [], ◌∷◌, bytes_eq, All, eq_of_bytes_eq, Bytes,
  ok, Result-split, Bool-cases, inl, inr,
}
use openmls_dart.Storage.Snapshot.{SnapshotStorageProvider, kv_read, kv_delete}
use openmls_dart.Storage.Labels.{proposal_queue_refs_label}
use openmls_dart.Storage.Typed.{
  Serialize, Deserialize, SerdeJson, ToValue, from_items, build_key_serde, read_list, delete_val,
}
use openmls_dart.Storage.Typed.Laws.{read-delete, read-delete_ne}
use openmls_dart.Storage.Provider.Lists.{
  pair_key, queued_proposal_refs, delete_proposals, clear_proposal_queue,
}
use openmls_dart.Storage.Provider.Deleted.{
  stays_gone, IsGone, IsQueued, delete_proposals-IsGone, delete_proposals_keeps,
}

-- Reading a list changes nothing.
pub read_list_keeps :
    (json : SerdeJson) {K : Type 0} (A : Type 0) ⦃ks : Serialize K⦄ ⦃vd : Deserialize A⦄ (v : ℕ)
    (label : Bytes) (key : K) (p : SnapshotStorageProvider)
    → (read_list json {A = A} v label key p).1 ≡ p
unfolding read_list
read_list_keeps json A v label key p = elim (Result-split (build_key_serde v label key)) [
  | inr (e, bad) ↦ rw bad
  | inl (k, good) ↦ elim (Option-cases (kv_read k p)) [
    | inl gone ↦ rw (good, gone)
    | inr (bytes, there) ↦ elim (Result-split (json.list_from_slice bytes)) [
      | inr (e, bad) ↦ rw (good, there, bad)
      | inl (raw, listed) ↦ rw (good, there, listed)
    ]
  ]
]

module _ (json : SerdeJson) {G R : Type 0} ⦃gs : Serialize G⦄ ⦃gv : ToValue json.Value G⦄
    ⦃rv : ToValue json.Value R⦄ where
  module _ ⦃rd : Deserialize R⦄ where
    -- What a successful call of `clear_proposal_queue` runs.
    clear_run :
        (group_id : G) (refs : List R) (p : SnapshotStorageProvider)
        → (queued_proposal_refs json group_id p).0 ≡ ok refs
        → (clear_proposal_queue json R group_id p).0 ≡ ok tt
        → ((delete_proposals json group_id refs p).0 ≡ ok tt)
          × ((k : Bytes) × (build_key_serde json.current_version proposal_queue_refs_label group_id
                ≡ ok k)
              × (clear_proposal_queue json R group_id p
                  ≡ (ok tt, kv_delete k (delete_proposals json group_id refs p).1)))
    unfolding clear_proposal_queue queued_proposal_refs delete_val
    clear_run group_id refs p listed done =
        elim (Result-split (delete_proposals json group_id refs p).0) [
          | inr (e, bad) ↦ absurd (cc (rw (listed, kept, bad) at done))
          | inl (_, deleted) ↦
              elim (Result-split
                (build_key_serde json.current_version proposal_queue_refs_label group_id)) [
                  | inr (e, bad) ↦ absurd (cc (rw (listed, kept, deleted, bad) at done))
                  | inl (k, good) ↦ (deleted, (k, good, rw (listed, kept, deleted, good) refl))
                ]
        ]
      where
        kept :
            (read_list json {A = R} json.current_version proposal_queue_refs_label group_id p).1 ≡ p
        kept = read_list_keeps json R json.current_version proposal_queue_refs_label group_id p

    no_refs :
        (group_id : G) (k : Bytes) (p : SnapshotStorageProvider)
        → build_key_serde json.current_version proposal_queue_refs_label group_id ≡ ok k
        → (queued_proposal_refs json {R = R} group_id (kv_delete k p)).0 ≡ ok []
    unfolding queued_proposal_refs read_list
    no_refs group_id k p good = rw (good, read-delete k p) (unfold from_items in refl)

    all_stay-IsGone :
        (group_id : G) (k : Bytes) (refs : List R) (p : SnapshotStorageProvider)
        → All (IsGone json group_id p) refs
        → All (IsGone json group_id (kv_delete k p)) refs
    all_stay-IsGone group_id k [] p h = tt
    all_stay-IsGone group_id k (r ∷ refs) p ((j, key, gone), rest) =
        ((j, key, stays_gone k j p gone), all_stay-IsGone group_id k refs p rest)

    kept_row :
        (group_id : G) (refs : List R) (p : SnapshotStorageProvider) (j k : Bytes)
        → build_key_serde json.current_version proposal_queue_refs_label group_id ≡ ok k
        → (delete_proposals json group_id refs p).0 ≡ ok tt
        → (kv_read j (kv_delete k (delete_proposals json group_id refs p).1) ≡ kv_read j p)
          ⊎ (build_key_serde json.current_version proposal_queue_refs_label group_id ≡ ok j)
          ⊎ IsQueued json group_id refs j
    kept_row group_id refs p j k key deleted = elim (Bool-cases (bytes_eq k j)) [
      | inl same ↦ inr (inl (rw (← eq_of_bytes_eq k j same) key))
      | inr other ↦ elim (delete_proposals_keeps json group_id refs p j deleted) [
        | inl kept ↦ inl (read-delete_ne k j (delete_proposals json group_id refs p).1 other ∙ kept)
        | inr queued ↦ inr (inr queued)
      ]
    ]

    -- The store after a call, and the one before it.
    pub record IsCleared (group_id : G) (refs : List R) (p q : SnapshotStorageProvider)
        : Type 0 where
      pub emptied : (queued_proposal_refs json {R = R} group_id q).0 ≡ ok []
      pub gone : All (IsGone json group_id q) refs
      pub kept :
          (j : Bytes)
          → (kv_read j q ≡ kv_read j p)
            ⊎ (build_key_serde json.current_version proposal_queue_refs_label group_id ≡ ok j)
            ⊎ IsQueued json group_id refs j

    -- If the references of the proposals queued for a group can be read, and the queue is
    -- successfully cleared, then no reference is queued any more, each of the proposals referred to
    -- has a storage key with no row under it, and every row is as before but the one of the
    -- references and those of the proposals.
    pub clear_proposal_queue-IsCleared :
        (group_id : G) (refs : List R) (p : SnapshotStorageProvider)
        → (queued_proposal_refs json group_id p).0 ≡ ok refs
        → (clear_proposal_queue json R group_id p).0 ≡ ok tt
        → IsCleared group_id refs p (clear_proposal_queue json R group_id p).1
    clear_proposal_queue-IsCleared group_id refs p listed done =
        let (deleted, (k, key, e)) = clear_run group_id refs p listed done in
        subst (λ t. IsCleared group_id refs p t.1) (sym e)
          (record {
            emptied = no_refs group_id k (delete_proposals json group_id refs p).1 key;
            gone =
                all_stay-IsGone group_id k refs (delete_proposals json group_id refs p).1
                  (delete_proposals-IsGone json group_id refs p deleted);
            kept = λ j. kept_row group_id refs p j k key deleted;
          })
