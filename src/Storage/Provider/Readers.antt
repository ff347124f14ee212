-- ===== src/Storage/Provider/Readers.antt =====
-- The readers of single values in rust/src/snapshot_storage.rs. No row is no value, and no error.
use openmls_dart.Prelude.{Option}
use openmls_dart.Storage.Labels.{
  confirmation_tag_label, encryption_key_pair_label, epoch_secrets_label, group_context_label,
  group_state_label, interim_transcript_hash_label, join_config_label, key_package_label,
  message_secrets_label, own_leaf_node_index_label, psk_label, resumption_psk_store_label,
  signature_key_pair_label, tree_label,
}
use openmls_dart.Storage.Typed.{Serialize, Deserialize, SerdeJson, Exec, read_val}

module _ (json : SerdeJson) {K A : Type 0} ⦃ks : Serialize K⦄ ⦃vd : Deserialize A⦄ where
  unfoldable pub mls_group_join_config : K → Exec (Option A)
  mls_group_join_config group_id = read_val json.current_version join_config_label group_id

  unfoldable pub tree : K → Exec (Option A)
  tree group_id = read_val json.current_version tree_label group_id

  unfoldable pub group_context : K → Exec (Option A)
  group_context group_id = read_val json.current_version group_context_label group_id

  unfoldable pub interim_transcript_hash : K → Exec (Option A)
  interim_transcript_hash group_id =
      read_val json.current_version interim_transcript_hash_label group_id

  unfoldable pub confirmation_tag : K → Exec (Option A)
  confirmation_tag group_id = read_val json.current_version confirmation_tag_label group_id

  unfoldable pub group_state : K → Exec (Option A)
  group_state group_id = read_val json.current_version group_state_label group_id

  unfoldable pub message_secrets : K → Exec (Option A)
  message_secrets group_id = read_val json.current_version message_secrets_label group_id

  unfoldable pub resumption_psk_store : K → Exec (Option A)
  resumption_psk_store group_id = read_val json.current_version resumption_psk_store_label group_id

  unfoldable pub own_leaf_index : K → Exec (Option A)
  own_leaf_index group_id = read_val json.current_version own_leaf_node_index_label group_id

  unfoldable pub group_epoch_secrets : K → Exec (Option A)
  group_epoch_secrets group_id = read_val json.current_version epoch_secrets_label group_id

  unfoldable pub signature_key_pair : K → Exec (Option A)
  signature_key_pair public_key = read_val json.current_version signature_key_pair_label public_key

  unfoldable pub encryption_key_pair : K → Exec (Option A)
  encryption_key_pair public_key =
      read_val json.current_version encryption_key_pair_label public_key

  unfoldable pub key_package : K → Exec (Option A)
  key_package hash_ref = read_val json.current_version key_package_label hash_ref

  unfoldable pub psk : K → Exec (Option A)
  psk psk_id = read_val json.current_version psk_label psk_id
