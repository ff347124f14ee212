-- ===== src/Storage/Provider/Untouched.antt =====
-- The readers of rust/src/snapshot_storage.rs that give more than one value, on stores that agree on
-- the rows of their labels.
use openmls_dart.Prelude.{
  ℕ, ◌≡◌, refl, List, [], ◌∷◌, any, true, Bytes, bytes_eq, Result-split, Option-cases, inl, inr,
}
use openmls_dart.Storage.Labels.{
  own_leaf_nodes_label, proposal_queue_refs_label, queued_proposal_label, epoch_key_pairs_label,
}
use openmls_dart.Storage.Snapshot.{SnapshotStorageProvider, kv_read}
use openmls_dart.Storage.Typed.{
  Serialize, Deserialize, SerdeJson, ToValue, build_key_serde, build_epoch_key, read_val, read_list,
}
use openmls_dart.Storage.Typed.Laws.{build_key_serde-eq-ok}
use openmls_dart.Storage.Typed.Frames.{SameRows, SameRows-read_list, build_epoch_key-eq-ok}
use openmls_dart.Storage.Provider.Lists.{
  pair_key, composite_key, own_leaf_nodes, queued_proposal_refs, queued_proposals, proposals_of,
  encryption_epoch_key_pairs,
}
use openmls_dart.Storage.Provider.Cleared.{read_list_keeps}

-- The readers of own leaf nodes, of queued proposals, of their references and of the key pairs of an
-- epoch give the same in both stores, for all types and keys.
pub record Untouched (json : SerdeJson) (p q : SnapshotStorageProvider) : Type 1 where
  pub leaf_nodes :
      {G L : Type 0}
      → ⦃gs : Serialize G⦄ → ⦃ld : Deserialize L⦄ → (group_id : G)
      → (own_leaf_nodes json {L = L} group_id q).0 ≡ (own_leaf_nodes json {L = L} group_id p).0
  pub proposal_refs :
      {G R : Type 0}
      → ⦃gs : Serialize G⦄ → ⦃rd : Deserialize R⦄ → (group_id : G)
      → (queued_proposal_refs json {R = R} group_id q).0
        ≡ (queued_proposal_refs json {R = R} group_id p).0
  pub proposals :
      {G R Q : Type 0}
      → ⦃gs : Serialize G⦄ → ⦃gv : ToValue json.Value G⦄ → ⦃rv : ToValue json.Value R⦄
      → ⦃rd : Deserialize R⦄ → ⦃qd : Deserialize Q⦄ → (group_id : G)
      → (queued_proposals json {G = G} {R = R} {Q = Q} group_id q).0
        ≡ (queued_proposals json {G = G} {R = R} {Q = Q} group_id p).0
  pub key_pairs :
      {G E P : Type 0}
      → ⦃gs : Serialize G⦄ → ⦃es : Serialize E⦄ → ⦃pd : Deserialize (List P)⦄
      → (group_id : G) (epoch : E) (leaf_index : ℕ)
      → (encryption_epoch_key_pairs json {P = P} group_id epoch leaf_index q).0
        ≡ (encryption_epoch_key_pairs json {P = P} group_id epoch leaf_index p).0

module _ (json : SerdeJson) (p q : SnapshotStorageProvider) where
  SameRows-key_pairs :
      {G E P : Type 0} ⦃gs : Serialize G⦄ ⦃es : Serialize E⦄ ⦃pd : Deserialize (List P)⦄
      (group_id : G) (epoch : E) (leaf_index : ℕ)
      → SameRows json.current_version epoch_key_pairs_label p q
      → (encryption_epoch_key_pairs json {P = P} group_id epoch leaf_index q).0
        ≡ (encryption_epoch_key_pairs json {P = P} group_id epoch leaf_index p).0
  unfolding encryption_epoch_key_pairs
  SameRows-key_pairs {P} ⦃gs⦄ ⦃es⦄ ⦃pd⦄ group_id epoch leaf_index same =
      elim (Result-split (build_epoch_key json json.current_version group_id epoch leaf_index)) [
        | inr (e, bad) ↦ rw bad refl
        | inl (k, good) ↦
            let (kb, ke) =
              build_epoch_key-eq-ok json json.current_version group_id epoch leaf_index good in
            let here : kv_read k q ≡ kv_read k p = rw ke (same kb) in
            elim (Option-cases (kv_read k p)) [
              | inl gone ↦ rw (good, here, gone) refl
              | inr (bytes, there) ↦ rw (good, here, there) refl
            ]
      ]

  module _ {K : Type 0} (A : Type 0) ⦃ks : Serialize K⦄ ⦃vd : Deserialize A⦄ (v : ℕ) (label : Bytes)
      (key : K) where
    read_val_keeps : (read_val {A = A} v label key p).1 ≡ p
    unfolding read_val
    read_val_keeps = elim (Result-split (build_key_serde v label key)) [
      | inr (e, bad) ↦ rw bad refl
      | inl (k, good) ↦ elim (Option-cases (kv_read k p)) [
        | inl gone ↦ rw (good, gone) refl
        | inr (bytes, there) ↦ elim (Result-split (vd.from_slice bytes)) [
          | inr (e, bad) ↦ rw (good, there, bad) refl
          | inl (value, parsed) ↦ rw (good, there, parsed) refl
        ]
      ]
    ]

    SameRows-read_val :
        SameRows v label p q
        → (read_val {A = A} v label key q).0 ≡ (read_val {A = A} v label key p).0
    unfolding read_val
    SameRows-read_val same = elim (Result-split (build_key_serde v label key)) [
      | inr (e, bad) ↦ rw bad refl
      | inl (k, good) ↦
          let (kb, _, ke) = build_key_serde-eq-ok v label key good in
          let here : kv_read k q ≡ kv_read k p = rw ke (same kb) in
          elim (Option-cases (kv_read k p)) [
            | inl gone ↦ rw (good, here, gone) refl
            | inr (bytes, there) ↦ elim (Result-split (vd.from_slice bytes)) [
              | inr (e, bad) ↦ rw (good, here, there, bad) refl
              | inl (value, parsed) ↦ rw (good, here, there, parsed) refl
            ]
          ]
    ]

module _ (json : SerdeJson) {G R : Type 0} (Q : Type 0) ⦃gv : ToValue json.Value G⦄
    ⦃rv : ToValue json.Value R⦄ ⦃qd : Deserialize Q⦄ (group_id : G)
    (p q : SnapshotStorageProvider) where
  SameRows-proposals_of :
      (refs : List R)
      → SameRows json.current_version queued_proposal_label p q
      → (proposals_of json {Q = Q} group_id refs q).0
        ≡ (proposals_of json {Q = Q} group_id refs p).0
  unfolding proposals_of composite_key
  SameRows-proposals_of [] same = refl
  SameRows-proposals_of (r ∷ refs) same = elim (Result-split (gv.to_value group_id)) [
    | inr (e, bad) ↦ rw bad refl
    | inl (a, group_value) ↦ elim (Result-split (rv.to_value r)) [
      | inr (e, bad) ↦ rw (group_value, bad) refl
      | inl (b, ref_value) ↦
          let row =
            SameRows-read_val json p q Q ⦃ks = pair_key json⦄ json.current_version
              queued_proposal_label (a, b) same in
          let still =
            read_val_keeps json p q Q ⦃ks = pair_key json⦄ json.current_version
              queued_proposal_label (a, b) in
          let still' =
            read_val_keeps json q p Q ⦃ks = pair_key json⦄ json.current_version
              queued_proposal_label (a, b) in
          elim (Result-split
            (read_val ⦃ks = pair_key json⦄ {A = Q} json.current_version queued_proposal_label (a, b)
              p).0) [
                | inr (e, bad) ↦ rw (group_value, ref_value, row, bad) refl
                | inl (found, read) ↦
                    let rest = SameRows-proposals_of refs same in
                    elim (Result-split (proposals_of json {Q = Q} group_id refs p).0) [
                      | inr (e, bad) ↦
                          rw (group_value, ref_value, row, read, still, still', rest, bad) refl
                      | inl (tail, listed) ↦
                          rw (group_value, ref_value, row, read, still, still', rest, listed) refl
                    ]
              ]
    ]
  ]

module _ (json : SerdeJson) (p q : SnapshotStorageProvider) where
  SameRows-proposals :
      {G R Q : Type 0} ⦃gs : Serialize G⦄ ⦃gv : ToValue json.Value G⦄ ⦃rv : ToValue json.Value R⦄
      ⦃rd : Deserialize R⦄ ⦃qd : Deserialize Q⦄ (group_id : G)
      → SameRows json.current_version proposal_queue_refs_label p q
      → SameRows json.current_version queued_proposal_label p q
      → (queued_proposals json {G = G} {R = R} {Q = Q} group_id q).0
        ≡ (queued_proposals json {G = G} {R = R} {Q = Q} group_id p).0
  unfolding queued_proposals
  SameRows-proposals {G} {R} {Q} ⦃gs⦄ ⦃gv⦄ ⦃rv⦄ ⦃rd⦄ ⦃qd⦄ group_id same_refs same_rows =
      let v = json.current_version in
      let listed = SameRows-read_list json R v proposal_queue_refs_label group_id p q same_refs in
      let still = read_list_keeps json R v proposal_queue_refs_label group_id p in
      let still' = read_list_keeps json R v proposal_queue_refs_label group_id q in
      elim (Result-split (read_list json {A = R} v proposal_queue_refs_label group_id p).0) [
        | inr (e, bad) ↦ rw (listed, bad) refl
        | inl (refs, read) ↦
            rw (listed, read, still, still')
              (SameRows-proposals_of json Q group_id p q refs same_rows)
      ]

  pub SameRows-Untouched :
      ((m : Bytes)
        → (any (bytes_eq m) (
              own_leaf_nodes_label ∷ proposal_queue_refs_label ∷ queued_proposal_label
              ∷ epoch_key_pairs_label ∷ [])
            ≡ true)
        → SameRows json.current_version m p q)
      → Untouched json p q
  unfolding own_leaf_nodes queued_proposal_refs bytes_eq
  SameRows-Untouched same = record {
    leaf_nodes = λ {G = G} {L = L} ⦃gs = gs⦄ ⦃ld = ld⦄ group_id.
        SameRows-read_list json L json.current_version own_leaf_nodes_label group_id p q
          (same own_leaf_nodes_label refl);
    proposal_refs = λ {G = G} {R = R} ⦃gs = gs⦄ ⦃rd = rd⦄ group_id.
        SameRows-read_list json R json.current_version proposal_queue_refs_label group_id p q
          (same proposal_queue_refs_label refl);
    proposals =
        λ {G = G} {R = R} {Q = Q} ⦃gs = gs⦄ ⦃gv = gv⦄ ⦃rv = rv⦄ ⦃rd = rd⦄ ⦃qd = qd⦄ group_id.
          SameRows-proposals {R = R} {Q = Q} group_id (same proposal_queue_refs_label refl)
            (same queued_proposal_label refl);
    key_pairs = λ {G = G} {E = E} {P = P} ⦃gs = gs⦄ ⦃es = es⦄ ⦃pd = pd⦄ group_id epoch leaf_index.
        SameRows-key_pairs json p q {P = P} group_id epoch leaf_index
          (same epoch_key_pairs_label refl);
  }
