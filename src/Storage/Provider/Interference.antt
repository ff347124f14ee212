-- ===== src/Storage/Provider/Interference.antt =====
-- Writing an object of rust/src/snapshot_storage.rs disturbs no reader of another one.
use mathlib.Core.Path.{subst}
use openmls_dart.Prelude.{
  all_get, distinct_get, ℕ, ◌≡◌, ◌≢◌, ◌&&◌, refl, Bool, true, false, not, some, List, [], ◌∷◌,
  get_elem?, any, all, Bytes, bytes_eq, bytes_eq_iff, eq_of_bytes_eq, Bool-cases, inl, inr,
  &&-eq-true, arith,
}
use openmls_dart.Storage.Labels.{
  own_leaf_nodes_label, proposal_queue_refs_label, queued_proposal_label, epoch_key_pairs_label,
}
use openmls_dart.Storage.Labels.Disjoint.{labels, IsLabel}
use openmls_dart.Storage.Snapshot.{SnapshotStorageProvider}
use openmls_dart.Storage.Typed.{Serialize, Deserialize, SerdeJson}
use openmls_dart.Storage.Typed.Laws.{read_val-write_val_ne}
use openmls_dart.Storage.Typed.Frames.{write_val-SameRows}
use openmls_dart.Storage.Provider.Objects.{
  Object, objects, object, object_labels, labels_known, labels_distinct, at_label,
}
use openmls_dart.Storage.Provider.Untouched.{Untouched, SameRows-Untouched}

abbrev list_labels : List Bytes
list_labels =
    own_leaf_nodes_label ∷ proposal_queue_refs_label ∷ queued_proposal_label ∷ epoch_key_pairs_label
    ∷ []

-- A label of an object with one value is none of the other labels, and all are labels.
apart : Bytes → Bytes → Bool
apart m l = any (bytes_eq m) labels && not (bytes_eq l m)

list_labels-apart : all (λ m. all (apart m) object_labels) list_labels ≡ true
unfolding apart bytes_eq
list_labels-apart = refl

different : (l m : Bytes) → bytes_eq l m ≡ false → l ≢ m
different l m n e = cc ((bytes_eq_iff l m).1 e)

all-any :
    (t : Bytes → Bool) (ls : List Bytes) (m : Bytes)
    → all t ls ≡ true
    → any (bytes_eq m) ls ≡ true
    → t m ≡ true
all-any t [] m h a = absurd (cc a)
all-any t (l ∷ ls) m h a = elim (Bool-cases (bytes_eq m l)) [
  | inl e ↦ rw (eq_of_bytes_eq m l e) ((&&-eq-true (t l) _ h).0)
  | inr n ↦ all-any t ls m ((&&-eq-true (t l) _ h).1) (rw n at a)
]

object-IsLabel_apart :
    (i : ℕ) (l m : Bytes)
    → get_elem? object_labels i ≡ some l
    → any (bytes_eq m) list_labels ≡ true
    → IsLabel m × (l ≢ m)
unfolding apart
object-IsLabel_apart i l m hl hm =
    let row = all-any (λ k. all (apart k) object_labels) list_labels m list_labels-apart hm in
    let (known, other) =
      &&-eq-true (any (bytes_eq m) labels) _ (all_get (apart m) object_labels i row hl) in
    (known, different l m (ground arith))

module _ (json : SerdeJson) {K A : Type 0} ⦃ks : Serialize K⦄ ⦃vs : Serialize A⦄
    ⦃vd : Deserialize A⦄ where
  writes-Untouched :
      (key : K) (i : ℕ) (o : Object A) (value : A) (p : SnapshotStorageProvider)
      → get_elem? (objects json key) i ≡ some o
      → Untouched json p (o.writes value p).1
  writes-Untouched key i o value p at =
      let (l, hl, e) = at_label json {K = K} {A = A} key i at in
      subst (λ t. Untouched json p (t.writes value p).1) e
        (SameRows-Untouched json p ((object json {K = K} {A = A} key l).writes value p).1 (λ m hm.
          let (known, other) = object-IsLabel_apart i l m hl hm in
          unfold object in
          write_val-SameRows json.current_version l m key value p
            (all_get (λ k. any (bytes_eq k) labels) object_labels i labels_known hl) known other))

module _ (json : SerdeJson) {K A J B : Type 0} ⦃ks : Serialize K⦄ ⦃vs : Serialize A⦄
    ⦃vd : Deserialize A⦄ ⦃js : Serialize J⦄ ⦃ws : Serialize B⦄ ⦃wd : Deserialize B⦄ where
  reads_apart :
      (key : K) (other : J) (i j : ℕ) (o : Object A) (q : Object B) (value : A)
      (p : SnapshotStorageProvider)
      → i ≢ j
      → get_elem? (objects json key) i ≡ some o
      → get_elem? (objects json other) j ≡ some q
      → (q.reads (o.writes value p).1).0 ≡ (q.reads p).0
  reads_apart key other i j o q value p ne at there =
      let (l, hl, e) = at_label json {K = K} {A = A} key i at in
      let (m, hm, f) = at_label json {K = J} {A = B} other j there in
      subst (λ t. (q.reads (t.writes value p).1).0 ≡ (q.reads p).0) e
        (subst
          (λ t. (t.reads ((object json {K = K} {A = A} key l).writes value p).1).0 ≡ (t.reads p).0)
          f
          (unfold object in
            read_val-write_val_ne json.current_version l m key other value p
              (all_get (λ k. any (bytes_eq k) labels) object_labels i labels_known hl)
              (all_get (λ k. any (bytes_eq k) labels) object_labels j labels_known hm)
              (different l m (distinct_get object_labels i j labels_distinct ne hl hm))))

  -- The objects do not interfere: writing one of the fourteen objects of one value, under any key and
  -- whether or not the write succeeds, leaves what the readers of the other thirteen read, under
  -- every key, and what the readers of own leaf nodes, of queued proposals, of their references and
  -- of the key pairs of an epoch give, for all types and keys.
  pub reads-writes_ne :
      (key : K) (other : J) (i j : ℕ) (o : Object A) (q : Object B) (value : A)
      (p : SnapshotStorageProvider)
      → i ≢ j
      → get_elem? (objects json key) i ≡ some o
      → get_elem? (objects json other) j ≡ some q
      → ((q.reads (o.writes value p).1).0 ≡ (q.reads p).0) × Untouched json p (o.writes value p).1
  reads-writes_ne key other i j o q value p ne at there =
      (reads_apart key other i j o q value p ne at there, writes-Untouched json key i o value p at)
