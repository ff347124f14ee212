-- ===== src/Storage/Provider/Writers.antt =====
-- The writers of single values in rust/src/snapshot_storage.rs. The key is a group ID, a public key,
-- a hash reference or a PSK ID, each with its serializer.
use openmls_dart.Storage.Labels.{
  confirmation_tag_label, encryption_key_pair_label, epoch_secrets_label, group_context_label,
  group_state_label, interim_transcript_hash_label, join_config_label, key_package_label,
  message_secrets_label, own_leaf_node_index_label, psk_label, resumption_psk_store_label,
  signature_key_pair_label, tree_label,
}
use openmls_dart.Storage.Typed.{Serialize, SerdeJson, Exec, write_val}

module _ (json : SerdeJson) {K A : Type 0} ⦃ks : Serialize K⦄ ⦃vs : Serialize A⦄ where
  unfoldable pub write_mls_join_config : K → A → Exec (Unit {0})
  write_mls_join_config group_id config =
      write_val json.current_version join_config_label group_id config

  unfoldable pub write_tree : K → A → Exec (Unit {0})
  write_tree group_id tree = write_val json.current_version tree_label group_id tree

  unfoldable pub write_interim_transcript_hash : K → A → Exec (Unit {0})
  write_interim_transcript_hash group_id interim_transcript_hash =
      write_val json.current_version interim_transcript_hash_label group_id interim_transcript_hash

  unfoldable pub write_context : K → A → Exec (Unit {0})
  write_context group_id group_context =
      write_val json.current_version group_context_label group_id group_context

  unfoldable pub write_confirmation_tag : K → A → Exec (Unit {0})
  write_confirmation_tag group_id confirmation_tag =
      write_val json.current_version confirmation_tag_label group_id confirmation_tag

  unfoldable pub write_group_state : K → A → Exec (Unit {0})
  write_group_state group_id group_state =
      write_val json.current_version group_state_label group_id group_state

  unfoldable pub write_message_secrets : K → A → Exec (Unit {0})
  write_message_secrets group_id message_secrets =
      write_val json.current_version message_secrets_label group_id message_secrets

  unfoldable pub write_resumption_psk_store : K → A → Exec (Unit {0})
  write_resumption_psk_store group_id resumption_psk_store =
      write_val json.current_version resumption_psk_store_label group_id resumption_psk_store

  unfoldable pub write_own_leaf_index : K → A → Exec (Unit {0})
  write_own_leaf_index group_id own_leaf_index =
      write_val json.current_version own_leaf_node_index_label group_id own_leaf_index

  unfoldable pub write_group_epoch_secrets : K → A → Exec (Unit {0})
  write_group_epoch_secrets group_id group_epoch_secrets =
      write_val json.current_version epoch_secrets_label group_id group_epoch_secrets

  unfoldable pub write_signature_key_pair : K → A → Exec (Unit {0})
  write_signature_key_pair public_key signature_key_pair =
      write_val json.current_version signature_key_pair_label public_key signature_key_pair

  unfoldable pub write_encryption_key_pair : K → A → Exec (Unit {0})
  write_encryption_key_pair public_key key_pair =
      write_val json.current_version encryption_key_pair_label public_key key_pair

  unfoldable pub write_key_package : K → A → Exec (Unit {0})
  write_key_package hash_ref key_package =
      write_val json.current_version key_package_label hash_ref key_package

  unfoldable pub write_psk : K → A → Exec (Unit {0})
  write_psk psk_id psk = write_val json.current_version psk_label psk_id psk
