-- ===== src/Storage/Provider/Lists.antt =====
-- The methods of rust/src/snapshot_storage.rs over lists: own leaf nodes, queued proposals and their
-- references, and the key pairs of an epoch.
use openmls_dart.Prelude.{ℕ, Option, none, some, List, [], ◌∷◌, Bytes}
use openmls_dart.Storage.Labels.{
  own_leaf_nodes_label, proposal_queue_refs_label, queued_proposal_label,
}
use openmls_dart.Storage.Typed.{
  Serialize, Deserialize, SerdeJson, ToValue, Exec, ◌>>=◌, ◌>>◌, pure, lift, serde, write, read,
  delete, write_val, read_val, delete_val, append_to_list, read_list, remove_from_list,
  build_epoch_key,
}

module _ (json : SerdeJson) where
  -- The key `(Value, Value)` of a queued proposal.
  instance abbrev pub pair_key : Serialize (json.Value × json.Value)
  pair_key = record { to_vec = λ p. json.pair_to_vec p.0 p.1 }

  module _ {G : Type 0} ⦃gs : Serialize G⦄ where
    unfoldable pub append_own_leaf_node : {L : Type 0} ⦃ls : Serialize L⦄ → G → L → Exec (Unit {0})
    append_own_leaf_node ⦃ls⦄ group_id leaf_node = do
      item ← serde (ls.to_vec leaf_node)
      append_to_list json json.current_version own_leaf_nodes_label group_id item

    unfoldable pub own_leaf_nodes : {L : Type 0} ⦃ld : Deserialize L⦄ → G → Exec (List L)
    own_leaf_nodes group_id = read_list json json.current_version own_leaf_nodes_label group_id

    unfoldable pub queued_proposal_refs : {R : Type 0} ⦃rd : Deserialize R⦄ → G → Exec (List R)
    queued_proposal_refs group_id =
        read_list json json.current_version proposal_queue_refs_label group_id

  module _ {G R : Type 0} ⦃gv : ToValue json.Value G⦄ ⦃rv : ToValue json.Value R⦄ where
    unfoldable pub composite_key : G → R → Exec (json.Value × json.Value)
    composite_key group_id proposal_ref = do
      group_value ← serde (gv.to_value group_id)
      ref_value ← serde (rv.to_value proposal_ref)
      pure (group_value, ref_value)

    -- The loop of `queued_proposals`: a reference with no proposal is passed over.
    unfoldable pub proposals_of :
        {Q : Type 0} ⦃qd : Deserialize Q⦄ → G → List R → Exec (List (R × Q))
    proposals_of group_id [] = pure []
    proposals_of {Q} group_id (prop_ref ∷ refs) = do
      key ← composite_key group_id prop_ref
      found ← read_val {A = Q} json.current_version queued_proposal_label key
      rest ← proposals_of group_id refs
      pure (elim found [ none ↦ rest | some proposal ↦ (prop_ref, proposal) ∷ rest ])

    -- The loop of `clear_proposal_queue`.
    unfoldable pub delete_proposals : G → List R → Exec (Unit {0})
    delete_proposals group_id [] = pure tt
    delete_proposals group_id (prop_ref ∷ refs) = do
      key ← composite_key group_id prop_ref
      delete_val json.current_version queued_proposal_label key
      delete_proposals group_id refs

    module _ ⦃gs : Serialize G⦄ where
      unfoldable pub queue_proposal :
          {Q : Type 0} ⦃rs : Serialize R⦄ ⦃qs : Serialize Q⦄ → G → R → Q → Exec (Unit {0})
      queue_proposal ⦃rs⦄ group_id proposal_ref proposal = do
        key ← composite_key group_id proposal_ref
        write_val json.current_version queued_proposal_label key proposal
        ref_bytes ← serde (rs.to_vec proposal_ref)
        append_to_list json json.current_version proposal_queue_refs_label group_id ref_bytes

      unfoldable pub remove_proposal : ⦃rs : Serialize R⦄ → G → R → Exec (Unit {0})
      remove_proposal ⦃rs⦄ group_id proposal_ref = do
        key ← composite_key group_id proposal_ref
        delete_val json.current_version queued_proposal_label key
        ref_bytes ← serde (rs.to_vec proposal_ref)
        remove_from_list json json.current_version proposal_queue_refs_label group_id ref_bytes

      unfoldable pub queued_proposals :
          {Q : Type 0} ⦃rd : Deserialize R⦄ ⦃qd : Deserialize Q⦄ → G → Exec (List (R × Q))
      queued_proposals {Q} group_id = do
        refs ← read_list json {A = R} json.current_version proposal_queue_refs_label group_id
        proposals_of group_id refs

  module _ {G : Type 0} (R : Type 0) ⦃gs : Serialize G⦄ ⦃gv : ToValue json.Value G⦄
      ⦃rv : ToValue json.Value R⦄ where
    -- The type of the references is that of the caller's `ProposalRef`.
    unfoldable pub clear_proposal_queue : ⦃rd : Deserialize R⦄ → G → Exec (Unit {0})
    clear_proposal_queue group_id = do
      refs ← read_list json {A = R} json.current_version proposal_queue_refs_label group_id
      delete_proposals group_id refs
      delete_val json.current_version proposal_queue_refs_label group_id

  abbrev pub key_pairs_found :
      {P : Type 0} ⦃pd : Deserialize (List P)⦄ → Option Bytes → Exec (List P)
  key_pairs_found none = pure []
  key_pairs_found ⦃pd⦄ (some bytes) = serde (pd.from_slice bytes)

  module _ {G E : Type 0} ⦃gs : Serialize G⦄ ⦃es : Serialize E⦄ where
    unfoldable pub write_encryption_epoch_key_pairs :
        {Ps : Type 0} ⦃ps : Serialize Ps⦄ → G → E → ℕ → Ps → Exec (Unit {0})
    write_encryption_epoch_key_pairs ⦃ps⦄ group_id epoch leaf_index key_pairs = do
      storage_key ← lift (build_epoch_key json json.current_version group_id epoch leaf_index)
      val_bytes ← serde (ps.to_vec key_pairs)
      write storage_key val_bytes

    unfoldable pub encryption_epoch_key_pairs :
        {P : Type 0} ⦃pd : Deserialize (List P)⦄ → G → E → ℕ → Exec (List P)
    encryption_epoch_key_pairs group_id epoch leaf_index = do
      storage_key ← lift (build_epoch_key json json.current_version group_id epoch leaf_index)
      found ← read storage_key
      key_pairs_found found

    unfoldable pub delete_encryption_epoch_key_pairs : G → E → ℕ → Exec (Unit {0})
    delete_encryption_epoch_key_pairs group_id epoch leaf_index = do
      storage_key ← lift (build_epoch_key json json.current_version group_id epoch leaf_index)
      delete storage_key
