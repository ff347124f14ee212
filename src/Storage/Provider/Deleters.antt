-- ===== src/Storage/Provider/Deleters.antt =====
-- The deleters of single rows in rust/src/snapshot_storage.rs.
use openmls_dart.Storage.Labels.{
  confirmation_tag_label, encryption_key_pair_label, epoch_secrets_label, group_context_label,
  group_state_label, interim_transcript_hash_label, join_config_label, key_package_label,
  message_secrets_label, own_leaf_node_index_label, own_leaf_nodes_label, psk_label,
  resumption_psk_store_label, signature_key_pair_label, tree_label,
}
use openmls_dart.Storage.Typed.{Serialize, SerdeJson, Exec, delete_val}

module _ (json : SerdeJson) {K : Type 0} ⦃ks : Serialize K⦄ where
  unfoldable pub delete_own_leaf_nodes : K → Exec (Unit {0})
  delete_own_leaf_nodes group_id = delete_val json.current_version own_leaf_nodes_label group_id

  unfoldable pub delete_group_config : K → Exec (Unit {0})
  delete_group_config group_id = delete_val json.current_version join_config_label group_id

  unfoldable pub delete_tree : K → Exec (Unit {0})
  delete_tree group_id = delete_val json.current_version tree_label group_id

  unfoldable pub delete_confirmation_tag : K → Exec (Unit {0})
  delete_confirmation_tag group_id = delete_val json.current_version confirmation_tag_label group_id

  unfoldable pub delete_group_state : K → Exec (Unit {0})
  delete_group_state group_id = delete_val json.current_version group_state_label group_id

  unfoldable pub delete_context : K → Exec (Unit {0})
  delete_context group_id = delete_val json.current_version group_context_label group_id

  unfoldable pub delete_interim_transcript_hash : K → Exec (Unit {0})
  delete_interim_transcript_hash group_id =
      delete_val json.current_version interim_transcript_hash_label group_id

  unfoldable pub delete_message_secrets : K → Exec (Unit {0})
  delete_message_secrets group_id = delete_val json.current_version message_secrets_label group_id

  unfoldable pub delete_all_resumption_psk_secrets : K → Exec (Unit {0})
  delete_all_resumption_psk_secrets group_id =
      delete_val json.current_version resumption_psk_store_label group_id

  unfoldable pub delete_own_leaf_index : K → Exec (Unit {0})
  delete_own_leaf_index group_id =
      delete_val json.current_version own_leaf_node_index_label group_id

  unfoldable pub delete_group_epoch_secrets : K → Exec (Unit {0})
  delete_group_epoch_secrets group_id = delete_val json.current_version epoch_secrets_label group_id

  unfoldable pub delete_signature_key_pair : K → Exec (Unit {0})
  delete_signature_key_pair public_key =
      delete_val json.current_version signature_key_pair_label public_key

  unfoldable pub delete_encryption_key_pair : K → Exec (Unit {0})
  delete_encryption_key_pair public_key =
      delete_val json.current_version encryption_key_pair_label public_key

  unfoldable pub delete_key_package : K → Exec (Unit {0})
  delete_key_package hash_ref = delete_val json.current_version key_package_label hash_ref

  unfoldable pub delete_psk : K → Exec (Unit {0})
  delete_psk psk_id = delete_val json.current_version psk_label psk_id
