-- ===== src/Tests/Provider.antt =====
-- The storage trait of rust/src/snapshot_storage.rs over a small codec of lists.
use openmls_dart.Prelude.{
  ℕ, zero, suc, ◌≡◌, refl, sym, ap, ◌∙◌, none, some, List, [], ◌∷◌, ◌++◌, bytes_eq, to_be_bytes,
  Bytes, ok, ok_injective, get_elem?,
}
use openmls_dart.Storage.Rows.{get, insert, remove}
use openmls_dart.Storage.Labels.{build_key}
use openmls_dart.Storage.Snapshot.{SnapshotStorageProvider, kv_read, kv_write, kv_delete}
use openmls_dart.Storage.Typed.{
  Serialize, Deserialize, SerdeJson, ToValue, build_key_serde, write_val, delete_val, read_list,
  append_to_list, from_items,
}
use openmls_dart.Storage.Typed.Laws.{Restores}
use openmls_dart.Storage.Provider.Writers.{write_tree, write_context}
use openmls_dart.Storage.Provider.Readers.{tree, group_context}
use openmls_dart.Storage.Provider.Deleters.{delete_tree, delete_context}
use openmls_dart.Storage.Provider.Lists.{
  composite_key, queue_proposal, own_leaf_nodes, append_own_leaf_node, queued_proposal_refs,
  delete_proposals, clear_proposal_queue,
}
use openmls_dart.Storage.Provider.Objects.{Object, objects, reads-writes, reads-deletes}
use openmls_dart.Storage.Provider.Interference.{reads-writes_ne}
use openmls_dart.Storage.Provider.Untouched.{Untouched}
use openmls_dart.Storage.Provider.Queue.{RestoresLists, own_leaf_nodes-append}
use openmls_dart.Storage.Provider.Cleared.{IsCleared, clear_proposal_queue-IsCleared}

-- A byte string goes one up and gets a zero at its end.
encode_item : Bytes → Bytes → Bytes
encode_item [] rest = 0 ∷ rest
encode_item (b ∷ bs) rest = suc b ∷ encode_item bs rest

encode_items : List Bytes → Bytes
encode_items [] = []
encode_items (item ∷ items) = encode_item item (encode_items items)

push_byte : ℕ → List Bytes → List Bytes
push_byte b [] = (b ∷ []) ∷ []
push_byte b (item ∷ items) = (b ∷ item) ∷ items

decode_items : Bytes → List Bytes
decode_items [] = []
decode_items (zero ∷ bs) = [] ∷ decode_items bs
decode_items (suc b ∷ bs) = push_byte b (decode_items bs)

decode-encode_item :
    (item rest : Bytes) → decode_items (encode_item item rest) ≡ item ∷ decode_items rest
unfolding encode_item decode_items push_byte
decode-encode_item [] rest = refl
decode-encode_item (b ∷ bs) rest = rw (decode-encode_item bs rest)

decode-encode_items : (items : List Bytes) → decode_items (encode_items items) ≡ items
unfolding encode_items decode_items
decode-encode_items [] = refl
decode-encode_items (item ∷ items) =
    decode-encode_item item (encode_items items)
    ∙ ap (λ rest. item ∷ rest) (decode-encode_items items)

instance abbrev bytes_to : Serialize Bytes
bytes_to = record { to_vec = λ b. ok b }

instance abbrev bytes_from : Deserialize Bytes
bytes_from = record { from_slice = λ b. ok b }

instance abbrev bytes_value : ToValue Bytes Bytes
bytes_value = record { to_value = λ b. ok b }

abbrev small_json : SerdeJson
small_json = record {
  Value = Bytes;
  pair_to_vec = λ a b. ok (a ++ 44 ∷ b);
  list_to_vec = λ items. ok (encode_items items);
  list_from_slice = λ bytes. ok (decode_items bytes);
  current_version = 1;
  leaf_index_to_vec = λ n. ok (n ∷ []);
}

small_json-RestoresLists : RestoresLists small_json
small_json-RestoresLists items bytes h =
    ap (λ b. ok (decode_items b)) (sym (ok_injective h))
    ∙ ap (λ i. ok i) (decode-encode_items items)

bytes-Restores : Restores bytes_to bytes_from
bytes-Restores a bytes h = ap (λ b. ok b) (sym (ok_injective h))

abbrev empty : SnapshotStorageProvider
empty = record { initial = []; current = [] }

abbrev group : Bytes
group = 9 ∷ []

abbrev leaf : Bytes
leaf = 5 ∷ []

abbrev tree_methods : Object Bytes
tree_methods = record {
  writes = write_tree small_json group;
  reads = tree small_json group;
  deletes = delete_tree small_json group;
}

abbrev context_methods : Object Bytes
context_methods = record {
  writes = write_context small_json group;
  reads = group_context small_json group;
  deletes = delete_context small_json group;
}

tree_at : get_elem? (objects small_json {A = Bytes} group) 1 ≡ some tree_methods
unfolding objects
tree_at = refl

context_at : get_elem? (objects small_json {A = Bytes} group) 3 ≡ some context_methods
unfolding objects
context_at = refl

tree_written : (tree_methods.writes (1 ∷ 2 ∷ []) empty).0 ≡ ok tt
unfolding write_tree write_val build_key_serde
tree_written = refl

tree_deleted : (tree_methods.deletes empty).0 ≡ ok tt
unfolding delete_tree delete_val build_key_serde
tree_deleted = refl

reads-writes_example :
    (tree_methods.reads (tree_methods.writes (1 ∷ 2 ∷ []) empty).1).0 ≡ ok (some (1 ∷ 2 ∷ []))
reads-writes_example =
    reads-writes small_json {K = Bytes} group 1 tree_methods (1 ∷ 2 ∷ []) empty bytes-Restores
      tree_at tree_written

reads-deletes_example : (tree_methods.reads (tree_methods.deletes empty).1).0 ≡ ok none
reads-deletes_example =
    reads-deletes small_json {K = Bytes} {A = Bytes} group 1 tree_methods empty tree_at tree_deleted

reads-writes_ne_example :
    ((context_methods.reads (tree_methods.writes (1 ∷ 2 ∷ []) empty).1).0
      ≡ (context_methods.reads empty).0)
    × Untouched small_json empty (tree_methods.writes (1 ∷ 2 ∷ []) empty).1
reads-writes_ne_example =
    reads-writes_ne small_json {K = Bytes} {A = Bytes} {J = Bytes} {B = Bytes} group group 1 3
      tree_methods context_methods (1 ∷ 2 ∷ []) empty (λ e. cc) tree_at context_at

no_leaves : (own_leaf_nodes small_json {L = Bytes} group empty).0 ≡ ok []
unfolding own_leaf_nodes read_list build_key_serde kv_read get from_items
no_leaves = refl

leaf_appended : (append_own_leaf_node small_json group leaf empty).0 ≡ ok tt
unfolding append_own_leaf_node append_to_list build_key_serde kv_read get
leaf_appended = refl

own_leaf_nodes-append_example :
    (own_leaf_nodes small_json {L = Bytes} group
      (append_own_leaf_node small_json group leaf empty).1).0
    ≡ ok (leaf ∷ [])
own_leaf_nodes-append_example =
    own_leaf_nodes-append small_json group leaf [] empty small_json-RestoresLists bytes-Restores
      no_leaves leaf_appended

abbrev one_proposal : SnapshotStorageProvider
one_proposal = (queue_proposal small_json group leaf group empty).1

queue_cleared : (clear_proposal_queue small_json Bytes group one_proposal).0 ≡ ok tt
unfolding clear_proposal_queue queue_proposal composite_key write_val append_to_list read_list
    delete_proposals delete_val build_key_serde build_key kv_read kv_write kv_delete get insert
    remove from_items bytes_eq encode_items encode_item decode_items push_byte to_be_bytes
queue_cleared = refl

leaf_queued : (queued_proposal_refs small_json {R = Bytes} group one_proposal).0 ≡ ok (leaf ∷ [])
unfolding queue_proposal queued_proposal_refs composite_key write_val append_to_list read_list
    build_key_serde build_key kv_read kv_write get insert from_items bytes_eq encode_items
    encode_item decode_items push_byte to_be_bytes
leaf_queued = refl

clear_proposal_queue-IsCleared_example :
    IsCleared small_json group
      (leaf ∷ [])
      one_proposal
      (clear_proposal_queue small_json Bytes group one_proposal).1
clear_proposal_queue-IsCleared_example =
    clear_proposal_queue-IsCleared small_json group (leaf ∷ []) one_proposal leaf_queued
      queue_cleared
