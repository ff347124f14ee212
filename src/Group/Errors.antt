-- ===== src/Group/Errors.antt =====
-- `MlsErrorCode` of rust/src/api/group_e2ee.rs, and its numbers.

pub data MlsErrorCode : Type 0 where
  invalid_frame unsupported_contract_version unsupported_profile unsupported_operation :
      MlsErrorCode
  noncanonical_encoding limit_exceeded storage_format_mismatch : MlsErrorCode
  invalid_storage_snapshot group_state_unavailable base_state_mismatch : MlsErrorCode
  configuration_mismatch group_mismatch previous_epoch_mismatch : MlsErrorCode
  previous_roster_mismatch resulting_epoch_mismatch resulting_roster_mismatch : MlsErrorCode
  aad_mismatch message_kind_mismatch sender_mismatch local_leaf_mismatch : MlsErrorCode
  invalid_signer unsupported_credential mls_decode_rejected welcome_rejected : MlsErrorCode
  mls_protocol_rejected expected_key_package_mismatch pending_commit_exists : MlsErrorCode
  pending_commit_missing pending_binding_mismatch acceptance_binding_mismatch : MlsErrorCode
  message_epoch_mismatch message_roster_mismatch inactive_group : MlsErrorCode
  future_message_epoch required_commit_epoch_mismatch past_epoch_unavailable : MlsErrorCode
  generation_too_old replay forward_distance_exceeded : MlsErrorCode
  unsupported_local_metadata_version local_metadata_missing unsupported_retention : MlsErrorCode
  wire_hash_mismatch external_candidate_invalid external_candidate_mismatch : MlsErrorCode
  external_target_state_exists external_acceptance_mismatch external_own_commit : MlsErrorCode
  external_delta_mismatch external_lifecycle_mismatch internal_failure : MlsErrorCode
