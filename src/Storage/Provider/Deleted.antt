-- ===== src/Storage/Provider/Deleted.antt =====
-- What the loop of `clear_proposal_queue` in rust/src/snapshot_storage.rs deletes, and what it keeps.
use mathlib.Core.Path.{subst}
use openmls_dart.Prelude.{
  suc, ◌≡◌, ◌⊎◌, refl, sym, ap, ◌∙◌, none, some, ℕ, List, [], ◌∷◌, get_elem?, bytes_eq, All,
  eq_of_bytes_eq, Bytes, ok, Result-split, Bool-cases, inl, inr,
}
use openmls_dart.Storage.Snapshot.{SnapshotStorageProvider, kv_read, kv_delete}
use openmls_dart.Storage.Labels.{queued_proposal_label}
use openmls_dart.Storage.Typed.{Serialize, SerdeJson, ToValue, build_key_serde, delete_val}
use openmls_dart.Storage.Typed.Laws.{read-delete, read-delete_ne}
use openmls_dart.Storage.Provider.Lists.{pair_key, composite_key, delete_proposals}

-- A deletion brings no row back.
pub stays_gone :
    (k j : Bytes) (p : SnapshotStorageProvider)
    → kv_read j p ≡ none
    → kv_read j (kv_delete k p) ≡ none
stays_gone k j p h = elim (Bool-cases (bytes_eq k j)) [
  | inl e ↦ rw (← eq_of_bytes_eq k j e) (read-delete k p)
  | inr n ↦ read-delete_ne k j p n ∙ h
]

module _ (json : SerdeJson) {G R : Type 0} ⦃gs : Serialize G⦄ ⦃gv : ToValue json.Value G⦄
    ⦃rv : ToValue json.Value R⦄ where
  -- The key of the row of a queued proposal.
  abbrev pub IsProposalKey : G → R → Bytes → Type 0
  IsProposalKey group_id proposal_ref k =
      (a : json.Value) × (b : json.Value) × (gv.to_value group_id ≡ ok a)
      × (rv.to_value proposal_ref ≡ ok b)
      × (build_key_serde ⦃ks = pair_key json⦄ json.current_version queued_proposal_label (a, b)
          ≡ ok k)

  abbrev pub IsGone : G → SnapshotStorageProvider → R → Type 0
  IsGone group_id q proposal_ref =
      (k : Bytes) × IsProposalKey group_id proposal_ref k × (kv_read k q ≡ none)

  -- One of the references has its proposal under the key.
  abbrev pub IsQueued : G → List R → Bytes → Type 0
  IsQueued group_id refs k =
      (i : ℕ) × (proposal_ref : R) × (get_elem? refs i ≡ some proposal_ref)
      × IsProposalKey group_id proposal_ref k

  deleted_row :
      (group_id : G) (proposal_ref : R) (refs : List R) (p : SnapshotStorageProvider)
      → (delete_proposals json group_id (proposal_ref ∷ refs) p).0 ≡ ok tt
      → (k : Bytes) × IsProposalKey group_id proposal_ref k
        × (delete_proposals json group_id (proposal_ref ∷ refs) p
            ≡ delete_proposals json group_id refs (kv_delete k p))
  unfolding delete_proposals composite_key delete_val
  deleted_row group_id proposal_ref refs p done = elim (Result-split (gv.to_value group_id)) [
    | inr (e, bad) ↦ absurd (cc (rw bad at done))
    | inl (a, group_value) ↦ elim (Result-split (rv.to_value proposal_ref)) [
      | inr (e, bad) ↦ absurd (cc (rw (group_value, bad) at done))
      | inl (b, ref_value) ↦
          elim (Result-split (
            build_key_serde ⦃ks = pair_key json⦄ json.current_version queued_proposal_label
              (a, b))) [
                | inr (e, bad) ↦ absurd (cc (rw (group_value, ref_value, bad) at done))
                | inl (k, good) ↦ (
                  k,
                  (a, b, group_value, ref_value, good),
                  rw (group_value, ref_value, good) refl,
                )
              ]
    ]
  ]

  delete_proposals_stay_gone :
      (group_id : G) (refs : List R) (p : SnapshotStorageProvider) (j : Bytes)
      → (delete_proposals json group_id refs p).0 ≡ ok tt
      → kv_read j p ≡ none
      → kv_read j (delete_proposals json group_id refs p).1 ≡ none
  delete_proposals_stay_gone group_id [] p j done h = unfold delete_proposals in h
  delete_proposals_stay_gone group_id (proposal_ref ∷ refs) p j done h =
      let (k, key, e) = deleted_row group_id proposal_ref refs p done in
      ap (λ t. kv_read j t.1) e
      ∙ delete_proposals_stay_gone group_id refs (kv_delete k p) j (sym (ap (λ t. t.0) e) ∙ done)
          (stays_gone k j p h)

  pub delete_proposals-IsGone :
      (group_id : G) (refs : List R) (p : SnapshotStorageProvider)
      → (delete_proposals json group_id refs p).0 ≡ ok tt
      → All (IsGone group_id (delete_proposals json group_id refs p).1) refs
  delete_proposals-IsGone group_id [] p done = tt
  delete_proposals-IsGone group_id (proposal_ref ∷ refs) p done =
      let (k, key, e) = deleted_row group_id proposal_ref refs p done in
      let done' : (delete_proposals json group_id refs (kv_delete k p)).0 ≡ ok tt =
        sym (ap (λ t. t.0) e) ∙ done in
      subst (λ t. All (IsGone group_id t.1) (proposal_ref ∷ refs)) (sym e)
        (
          (
            k,
            key,
            delete_proposals_stay_gone group_id refs (kv_delete k p) k done' (read-delete k p),
          ),
          delete_proposals-IsGone group_id refs (kv_delete k p) done',
        )

  pub delete_proposals_keeps :
      (group_id : G) (refs : List R) (p : SnapshotStorageProvider) (j : Bytes)
      → (delete_proposals json group_id refs p).0 ≡ ok tt
      → (kv_read j (delete_proposals json group_id refs p).1 ≡ kv_read j p)
        ⊎ IsQueued group_id refs j
  delete_proposals_keeps group_id [] p j done = inl (unfold delete_proposals in refl)
  delete_proposals_keeps group_id (proposal_ref ∷ refs) p j done =
      let (k, key, e) = deleted_row group_id proposal_ref refs p done in
      let done' : (delete_proposals json group_id refs (kv_delete k p)).0 ≡ ok tt =
        sym (ap (λ t. t.0) e) ∙ done in
      elim (Bool-cases (bytes_eq k j)) [
        | inl same ↦ inr (
          0,
          proposal_ref,
          refl,
          subst (IsProposalKey group_id proposal_ref) (eq_of_bytes_eq k j same) key,
        )
        | inr other ↦ elim (delete_proposals_keeps group_id refs (kv_delete k p) j done') [
          | inl kept ↦ inl (ap (λ t. kv_read j t.1) e ∙ kept ∙ read-delete_ne k j p other)
          | inr (i, r, at, queued) ↦ inr (suc i, r, at, queued)
        ]
      ]
