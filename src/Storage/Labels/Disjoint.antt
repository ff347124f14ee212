-- ===== src/Storage/Labels/Disjoint.antt =====
-- The labels of rust/src/snapshot_storage.rs keep the objects of the storage trait apart.
use openmls_dart.Prelude.{
  ℕ, ◌≡◌, inl, inr, refl, sym, ap, ◌∙◌, Bool, true, false, ◌||◌, List, [], ◌∷◌, ◌++◌, arith, Bytes,
  bytes_eq, bytes_eq_iff, starts_with, ◌==◌, all, any, append_assoc, to_be_bytes, eq_of_bytes_eq,
  starts_with-append, bytes_eq_comm, if◌then◌else◌, Bool-cases, &&-eq-true,
}
use mathlib.Core.List.{append_cancel_left, append_cancel_right}
use openmls_dart.Storage.Labels.{
  build_key, is_global_key, global_labels, key_package_label, psk_label, encryption_key_pair_label,
  signature_key_pair_label, epoch_key_pairs_label, tree_label, group_context_label,
  interim_transcript_hash_label, confirmation_tag_label, join_config_label, own_leaf_nodes_label,
  group_state_label, queued_proposal_label, proposal_queue_refs_label, own_leaf_node_index_label,
  epoch_secrets_label, resumption_psk_store_label, message_secrets_label,
}

-- Every label of the module, the four global ones first.
abbrev pub labels : List Bytes
labels =
    key_package_label ∷ psk_label ∷ encryption_key_pair_label ∷ signature_key_pair_label
    ∷ epoch_key_pairs_label ∷ tree_label ∷ group_context_label ∷ interim_transcript_hash_label
    ∷ confirmation_tag_label ∷ join_config_label ∷ own_leaf_nodes_label ∷ group_state_label
    ∷ queued_proposal_label ∷ proposal_queue_refs_label ∷ own_leaf_node_index_label
    ∷ epoch_secrets_label ∷ resumption_psk_store_label ∷ message_secrets_label ∷ []

abbrev pub IsLabel : Bytes → Type 0
IsLabel l = any (bytes_eq l) labels ≡ true

-- Two byte strings differ at a place that both have.
clash : Bytes → Bytes → Bool
clash [] ys = false
clash (x ∷ xs) [] = false
clash (x ∷ xs) (y ∷ ys) = if x == y then clash xs ys else true

clash-append : (xs ys us vs : Bytes) → clash xs ys ≡ true → clash (xs ++ us) (ys ++ vs) ≡ true
unfolding clash
clash-append [] ys us vs h = cc
clash-append (x ∷ xs) [] us vs h = cc
clash-append (x ∷ xs) (y ∷ ys) us vs h = ground (arith, clash-append xs ys us vs)

clash_irrefl : (xs : Bytes) → clash xs xs ≡ false
unfolding clash
clash_irrefl [] = refl
clash_irrefl (x ∷ xs) = ground (arith, clash_irrefl xs)

starts_with-clash : (xs ys us : Bytes) → clash xs ys ≡ true → starts_with xs (ys ++ us) ≡ false
unfolding clash starts_with
starts_with-clash [] ys us h = cc
starts_with-clash (x ∷ xs) [] us h = cc
starts_with-clash (x ∷ xs) (y ∷ ys) us h = ground (arith, starts_with-clash xs ys us)

-- What a test says of every entry it says of one that is found.
all_at :
    (p : Bytes → Bool) (l : Bytes) (xs : List Bytes)
    → all p xs ≡ true
    → any (bytes_eq l) xs ≡ true
    → p l ≡ true
all_at p l [] a h = cc
all_at p l (x ∷ xs) a h = ground (arith, bytes_eq_iff l x, all_at p l xs)

apart_table : all (λ l. all (λ m. bytes_eq l m || clash l m) labels) labels ≡ true
unfolding bytes_eq clash
apart_table = refl

labels_apart : (l m : Bytes) → IsLabel l → IsLabel m → (bytes_eq l m || clash l m) ≡ true
labels_apart l m hl hm =
    all_at (λ m'. bytes_eq l m' || clash l m') m labels
      (all_at (λ l'. all (λ m'. bytes_eq l' m' || clash l' m') labels) l labels apart_table hl) hm

-- Composite keys that agree have labels that agree, since no label clashes with itself.
clash-build_key :
    (v : ℕ) (l m k j : Bytes) → clash l m ≡ true → build_key v l k ≡ build_key v m j → ⊥
unfolding build_key
clash-build_key v l m k j c e = cc (
  clash-append (l ++ k) (m ++ j) (to_be_bytes 2 v) (to_be_bytes 2 v) (clash-append l m k j c),
  clash_irrefl ((m ++ j) ++ to_be_bytes 2 v),
)

build_key-cancel : (v : ℕ) (l k j : Bytes) → build_key v l k ≡ build_key v l j → k ≡ j
unfolding build_key
build_key-cancel v l k j e =
    append_cancel_left l k j (append_cancel_right (l ++ k) (l ++ j) (to_be_bytes 2 v) e)

-- Two rows of the same storage version, under labels of the module, have the same key only if label
-- and key bytes agree.
pub build_key_injective :
    (v : ℕ) (l m k j : Bytes)
    → IsLabel l
    → IsLabel m
    → build_key v l k ≡ build_key v m j
    → (l ≡ m) × (k ≡ j)
build_key_injective v l m k j hl hm e = elim (Bool-cases (bytes_eq l m)) [
  | inl h ↦ (
    eq_of_bytes_eq l m h,
    build_key-cancel v m k j (ap (λ t. build_key v t k) (sym (eq_of_bytes_eq l m h)) ∙ e),
  )
  | inr n ↦ absurd (clash-build_key v l m k j (rw n at (labels_apart l m hl hm)) e)
]

global_table : all (λ l. all (λ g. bytes_eq g l || clash g l) global_labels) labels ≡ true
unfolding bytes_eq clash
global_table = refl

any-starts_with :
    (l us : Bytes) (gs : List Bytes)
    → all (λ g. bytes_eq g l || clash g l) gs ≡ true
    → any (λ g. starts_with g (l ++ us)) gs ≡ any (bytes_eq l) gs
any-starts_with l us [] h = refl
any-starts_with l us (g ∷ gs) h = elim (Bool-cases (bytes_eq g l)) [
  | inl e ↦ rw (bytes_eq_comm l g, e, starts_with_own g e)
  | inr n ↦
      rw (bytes_eq_comm l g, n, starts_with-clash g l us (rw n at h_now))
        (any-starts_with l us gs h_rest)
]
  where
    h_now : (bytes_eq g l || clash g l) ≡ true
    h_now = (&&-eq-true _ _ h).0

    h_rest : all (λ g'. bytes_eq g' l || clash g' l) gs ≡ true
    h_rest = (&&-eq-true (bytes_eq g l || clash g l) _ h).1

    starts_with_own : (g' : Bytes) → bytes_eq g' l ≡ true → starts_with g' (l ++ us) ≡ true
    starts_with_own g' e = rw (eq_of_bytes_eq g' l e) (starts_with-append l us)

-- Whether a row under a label of the module is installation-global is decided by its label alone,
-- whatever its key bytes are.
pub is_global_key-build_key :
    (v : ℕ) (l k : Bytes)
    → IsLabel l
    → is_global_key (build_key v l k) ≡ any (bytes_eq l) global_labels
unfolding is_global_key build_key
is_global_key-build_key v l k hl = rw append_assoc (
    any-starts_with l (k ++ to_be_bytes 2 v) global_labels
      (all_at (λ m. all (λ g. bytes_eq g m || clash g m) global_labels) l labels global_table hl))
