-- ===== src/Storage/Labels.antt =====
-- The storage labels and composite keys of rust/src/snapshot_storage.rs.
pub mod Disjoint
use openmls_dart.Prelude.{ℕ, Bool, List, [], ◌∷◌, ◌++◌, Bytes, ascii, any, starts_with, to_be_bytes}

abbrev pub key_package_label : Bytes
key_package_label = ascii "KeyPackage"

abbrev pub psk_label : Bytes
psk_label = ascii "Psk"

abbrev pub encryption_key_pair_label : Bytes
encryption_key_pair_label = ascii "EncryptionKeyPair"

abbrev pub signature_key_pair_label : Bytes
signature_key_pair_label = ascii "SignatureKeyPair"

abbrev pub epoch_key_pairs_label : Bytes
epoch_key_pairs_label = ascii "EpochKeyPairs"

abbrev pub tree_label : Bytes
tree_label = ascii "Tree"

abbrev pub group_context_label : Bytes
group_context_label = ascii "GroupContext"

abbrev pub interim_transcript_hash_label : Bytes
interim_transcript_hash_label = ascii "InterimTranscriptHash"

abbrev pub confirmation_tag_label : Bytes
confirmation_tag_label = ascii "ConfirmationTag"

abbrev pub join_config_label : Bytes
join_config_label = ascii "MlsGroupJoinConfig"

abbrev pub own_leaf_nodes_label : Bytes
own_leaf_nodes_label = ascii "OwnLeafNodes"

abbrev pub group_state_label : Bytes
group_state_label = ascii "GroupState"

abbrev pub queued_proposal_label : Bytes
queued_proposal_label = ascii "QueuedProposal"

abbrev pub proposal_queue_refs_label : Bytes
proposal_queue_refs_label = ascii "ProposalQueueRefs"

abbrev pub own_leaf_node_index_label : Bytes
own_leaf_node_index_label = ascii "OwnLeafNodeIndex"

abbrev pub epoch_secrets_label : Bytes
epoch_secrets_label = ascii "EpochSecrets"

abbrev pub resumption_psk_store_label : Bytes
resumption_psk_store_label = ascii "ResumptionPsk"

abbrev pub message_secrets_label : Bytes
message_secrets_label = ascii "MessageSecrets"

-- `GLOBAL_LABELS`: the labels of installation-global rows.
abbrev pub global_labels : List Bytes
global_labels =
    ascii "KeyPackage" ∷ ascii "Psk" ∷ ascii "EncryptionKeyPair" ∷ ascii "SignatureKeyPair" ∷ []

unfoldable pub is_global_key : Bytes → Bool
is_global_key key = any (λ label. starts_with label key) global_labels

-- `u16::to_be_bytes(V)` closes the key.
unfoldable pub build_key : ℕ → Bytes → Bytes → Bytes
build_key v label key_bytes = (label ++ key_bytes) ++ to_be_bytes 2 v
