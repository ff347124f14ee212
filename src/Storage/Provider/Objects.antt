-- ===== src/Storage/Provider/Objects.antt =====
-- The fourteen objects of the storage trait that are one value under one key, each with its writer,
-- reader and deleter (rust/src/snapshot_storage.rs).
use mathlib.Core.Path.{subst}
use mathlib.Core.Option.{some-injective}
use openmls_dart.Prelude.{
  distinct, ℕ, zero, suc, ◌≡◌, refl, true, Option, none, some, List, [], ◌∷◌, map, get_elem?, any,
  all, Bytes, bytes_eq, ok,
}
use openmls_dart.Storage.Labels.{
  join_config_label, tree_label, interim_transcript_hash_label, group_context_label,
  confirmation_tag_label, group_state_label, message_secrets_label, resumption_psk_store_label,
  own_leaf_node_index_label, epoch_secrets_label, signature_key_pair_label,
  encryption_key_pair_label, key_package_label, psk_label,
}
use openmls_dart.Storage.Labels.Disjoint.{labels}
use openmls_dart.Storage.Snapshot.{SnapshotStorageProvider}
use openmls_dart.Storage.Typed.{
  Serialize, Deserialize, SerdeJson, Exec, write_val, read_val, delete_val,
}
use openmls_dart.Storage.Typed.Laws.{Restores, read_val-write_val, read_val-delete_val}
use openmls_dart.Storage.Provider.Writers.{
  write_mls_join_config, write_tree, write_interim_transcript_hash, write_context,
  write_confirmation_tag, write_group_state, write_message_secrets, write_resumption_psk_store,
  write_own_leaf_index, write_group_epoch_secrets, write_signature_key_pair,
  write_encryption_key_pair, write_key_package, write_psk,
}
use openmls_dart.Storage.Provider.Readers.{
  mls_group_join_config, tree, interim_transcript_hash, group_context, confirmation_tag,
  group_state, message_secrets, resumption_psk_store, own_leaf_index, group_epoch_secrets,
  signature_key_pair, encryption_key_pair, key_package, psk,
}
use openmls_dart.Storage.Provider.Deleters.{
  delete_group_config, delete_tree, delete_interim_transcript_hash, delete_context,
  delete_confirmation_tag, delete_group_state, delete_message_secrets,
  delete_all_resumption_psk_secrets, delete_own_leaf_index, delete_group_epoch_secrets,
  delete_signature_key_pair, delete_encryption_key_pair, delete_key_package, delete_psk,
}

-- What the trait offers for one object under one key.
pub record Object (A : Type 0) : Type 0 where
  pub writes : A → Exec (Unit {0})
  pub reads : Exec (Option A)
  pub deletes : Exec (Unit {0})

module _ (json : SerdeJson) {K A : Type 0} ⦃ks : Serialize K⦄ ⦃vs : Serialize A⦄
    ⦃vd : Deserialize A⦄ where
  -- The methods of the fourteen objects.
  unfoldable pub objects : K → List (Object A)
  objects key =
      record {
        writes = write_mls_join_config json key;
        reads = mls_group_join_config json key;
        deletes = delete_group_config json key;
      }
      ∷ record {
        writes = write_tree json key;
        reads = tree json key;
        deletes = delete_tree json key;
      }
      ∷ record {
        writes = write_interim_transcript_hash json key;
        reads = interim_transcript_hash json key;
        deletes = delete_interim_transcript_hash json key;
      }
      ∷ record {
        writes = write_context json key;
        reads = group_context json key;
        deletes = delete_context json key;
      }
      ∷ record {
        writes = write_confirmation_tag json key;
        reads = confirmation_tag json key;
        deletes = delete_confirmation_tag json key;
      }
      ∷ record {
        writes = write_group_state json key;
        reads = group_state json key;
        deletes = delete_group_state json key;
      }
      ∷ record {
        writes = write_message_secrets json key;
        reads = message_secrets json key;
        deletes = delete_message_secrets json key;
      }
      ∷ record {
        writes = write_resumption_psk_store json key;
        reads = resumption_psk_store json key;
        deletes = delete_all_resumption_psk_secrets json key;
      }
      ∷ record {
        writes = write_own_leaf_index json key;
        reads = own_leaf_index json key;
        deletes = delete_own_leaf_index json key;
      }
      ∷ record {
        writes = write_group_epoch_secrets json key;
        reads = group_epoch_secrets json key;
        deletes = delete_group_epoch_secrets json key;
      }
      ∷ record {
        writes = write_signature_key_pair json key;
        reads = signature_key_pair json key;
        deletes = delete_signature_key_pair json key;
      }
      ∷ record {
        writes = write_encryption_key_pair json key;
        reads = encryption_key_pair json key;
        deletes = delete_encryption_key_pair json key;
      }
      ∷ record {
        writes = write_key_package json key;
        reads = key_package json key;
        deletes = delete_key_package json key;
      }
      ∷ record { writes = write_psk json key; reads = psk json key; deletes = delete_psk json key }
      ∷ []

abbrev pub object_labels : List Bytes
object_labels =
    join_config_label ∷ tree_label ∷ interim_transcript_hash_label ∷ group_context_label
    ∷ confirmation_tag_label ∷ group_state_label ∷ message_secrets_label
    ∷ resumption_psk_store_label ∷ own_leaf_node_index_label ∷ epoch_secrets_label
    ∷ signature_key_pair_label ∷ encryption_key_pair_label ∷ key_package_label ∷ psk_label ∷ []

get_elem?-map :
    {A : Type 0} (f : Bytes → Object A) (ls : List Bytes) (i : ℕ) {o : Object A}
    → get_elem? (map f ls) i ≡ some o
    → (l : Bytes) × (get_elem? ls i ≡ some l) × (f l ≡ o)
get_elem?-map f [] i h = absurd (cc h)
get_elem?-map f (l ∷ ls) zero h = (l, refl, some-injective _ _ h)
get_elem?-map f (l ∷ ls) (suc i) h = get_elem?-map f ls i h

pub labels_known : all (λ l. any (bytes_eq l) labels) object_labels ≡ true
unfolding bytes_eq
labels_known = refl

pub labels_distinct : distinct object_labels ≡ true
unfolding distinct bytes_eq
labels_distinct = refl

module _ (json : SerdeJson) {K A : Type 0} ⦃ks : Serialize K⦄ ⦃vs : Serialize A⦄
    ⦃vd : Deserialize A⦄ where
  unfoldable pub object : K → Bytes → Object A
  object key l = record {
    writes = write_val json.current_version l key;
    reads = read_val json.current_version l key;
    deletes = delete_val json.current_version l key;
  }

  objects-map : (key : K) → objects json key ≡ map (object key) object_labels
  unfolding objects object write_mls_join_config write_tree write_interim_transcript_hash
      write_context write_confirmation_tag write_group_state write_message_secrets
      write_resumption_psk_store write_own_leaf_index write_group_epoch_secrets
      write_signature_key_pair write_encryption_key_pair write_key_package write_psk write_val
      mls_group_join_config tree interim_transcript_hash group_context confirmation_tag group_state
      message_secrets resumption_psk_store own_leaf_index group_epoch_secrets signature_key_pair
      encryption_key_pair key_package psk read_val delete_group_config delete_tree
      delete_interim_transcript_hash delete_context delete_confirmation_tag delete_group_state
      delete_message_secrets delete_all_resumption_psk_secrets delete_own_leaf_index
      delete_group_epoch_secrets delete_signature_key_pair delete_encryption_key_pair
      delete_key_package delete_psk delete_val
  objects-map key = refl

  pub at_label :
      (key : K) (i : ℕ) {o : Object A}
      → get_elem? (objects json key) i ≡ some o
      → (l : Bytes) × (get_elem? object_labels i ≡ some l) × (object key l ≡ o)
  at_label key i h = get_elem?-map (object key) object_labels i (rw (objects-map key) at h)

  -- For each of the fourteen objects of one value: where serde restores its values, what its writer
  -- successfully wrote under a key its reader reads there.
  pub reads-writes :
      (key : K) (i : ℕ) (o : Object A) (value : A) (p : SnapshotStorageProvider)
      → Restores vs vd
      → get_elem? (objects json key) i ≡ some o
      → (o.writes value p).0 ≡ ok tt
      → (o.reads (o.writes value p).1).0 ≡ ok (some value)
  reads-writes key i o value p restores at done =
      let (l, _, e) = at_label key i at in
      subst (λ t. (t.writes value p).0 ≡ ok tt → (t.reads (t.writes value p).1).0 ≡ ok (some value))
        e
        (λ h.
          unfold object in
          read_val-write_val json.current_version l key p value restores (unfold object in h))
        done

  -- For each of the fourteen objects of one value: after its deleter has successfully deleted a key
  -- its reader finds nothing there.
  pub reads-deletes :
      (key : K) (i : ℕ) (o : Object A) (p : SnapshotStorageProvider)
      → get_elem? (objects json key) i ≡ some o
      → (o.deletes p).0 ≡ ok tt
      → (o.reads (o.deletes p).1).0 ≡ ok none
  reads-deletes key i o p at done =
      let (l, _, e) = at_label key i at in
      subst (λ t. (t.deletes p).0 ≡ ok tt → (t.reads (t.deletes p).1).0 ≡ ok none) e
        (λ h.
          unfold object in read_val-delete_val json.current_version l key p (unfold object in h))
        done
