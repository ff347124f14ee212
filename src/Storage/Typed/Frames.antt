-- ===== src/Storage/Typed/Frames.antt =====
-- What a typed reader of rust/src/snapshot_storage.rs gives depends on the rows of its label only.
use openmls_dart.Prelude.{
  ℕ, ◌≡◌, ◌≢◌, refl, sym, ◌∙◌, false, ◌++◌, Bytes, bytes_eq, eq_of_bytes_eq, ok, Result-split,
  ok_injective, Bool-cases, Option-cases, inl, inr,
}
use openmls_dart.Storage.Labels.{build_key, epoch_key_pairs_label}
use openmls_dart.Storage.Labels.Disjoint.{IsLabel, build_key_injective}
use openmls_dart.Storage.Snapshot.{SnapshotStorageProvider, kv_read}
use openmls_dart.Storage.Typed.{
  Serialize, Deserialize, SerdeJson, build_key_serde, build_epoch_key, write_val, read_list,
}
use openmls_dart.Storage.Typed.Laws.{read-write_ne, build_key_serde-eq-ok}

-- The rows under a label are the same.
abbrev pub SameRows : ℕ → Bytes → SnapshotStorageProvider → SnapshotStorageProvider → Type 0
SameRows v m p q = (kb : Bytes) → kv_read (build_key v m kb) q ≡ kv_read (build_key v m kb) p

other_key :
    {K : Type 0} ⦃ks : Serialize K⦄ (v : ℕ) (l m : Bytes) (key : K) (kb : Bytes) {k : Bytes}
    → IsLabel l
    → IsLabel m
    → l ≢ m
    → build_key_serde v l key ≡ ok k
    → bytes_eq k (build_key v m kb) ≡ false
other_key v l m key kb {k} hl hm ne hk = elim (Bool-cases (bytes_eq k (build_key v m kb))) [
  | inr n ↦ n
  | inl e ↦
      let (jb, _, je) = build_key_serde-eq-ok v l key hk in
      absurd (ne (build_key_injective v l m jb kb hl hm (sym je ∙ eq_of_bytes_eq k _ e)).0)
]

-- Whether or not a write succeeds, the rows under another label stay.
pub write_val-SameRows :
    {K A : Type 0} ⦃ks : Serialize K⦄ ⦃vs : Serialize A⦄ (v : ℕ) (l m : Bytes) (key : K) (value : A)
    (p : SnapshotStorageProvider)
    → IsLabel l
    → IsLabel m
    → l ≢ m
    → SameRows v m p (write_val v l key value p).1
unfolding write_val
write_val-SameRows ⦃vs⦄ v l m key value p hl hm ne kb =
    elim (Result-split (build_key_serde v l key)) [
      | inr (e, bad) ↦ rw bad refl
      | inl (k, good) ↦ elim (Result-split (vs.to_vec value)) [
        | inr (e, bad) ↦ rw (good, bad) refl
        | inl (bytes, fine) ↦
            rw (good, fine)
              (read-write_ne k (build_key v m kb) bytes p (other_key v l m key kb hl hm ne good))
      ]
    ]

module _ (json : SerdeJson) {K : Type 0} (A : Type 0) ⦃ks : Serialize K⦄ ⦃vd : Deserialize A⦄
    (v : ℕ) (label : Bytes) (key : K) (p q : SnapshotStorageProvider) where
  pub SameRows-read_list :
      SameRows v label p q
      → (read_list json {A = A} v label key q).0 ≡ (read_list json {A = A} v label key p).0
  unfolding read_list
  SameRows-read_list same = elim (Result-split (build_key_serde v label key)) [
    | inr (e, bad) ↦ rw bad refl
    | inl (k, good) ↦
        let (kb, _, ke) = build_key_serde-eq-ok v label key good in
        let here : kv_read k q ≡ kv_read k p = rw ke (same kb) in
        elim (Option-cases (kv_read k p)) [
          | inl gone ↦ rw (good, here, gone) refl
          | inr (bytes, there) ↦ elim (Result-split (json.list_from_slice bytes)) [
            | inr (e, bad) ↦ rw (good, here, there, bad) refl
            | inl (raw, listed) ↦ rw (good, here, there, listed) refl
          ]
        ]
  ]

module _ (json : SerdeJson) {G E : Type 0} ⦃gs : Serialize G⦄ ⦃es : Serialize E⦄ where
  pub build_epoch_key-eq-ok :
      (v : ℕ) (g : G) (e : E) (n : ℕ) {k : Bytes}
      → build_epoch_key json v g e n ≡ ok k
      → (kb : Bytes) × (k ≡ build_key v epoch_key_pairs_label kb)
  unfolding build_epoch_key
  build_epoch_key-eq-ok v g e n {k} h = elim (Result-split (gs.to_vec g)) [
    | inr (_, bad) ↦ absurd (cc (rw bad at h))
    | inl (a, ga) ↦ elim (Result-split (es.to_vec e)) [
      | inr (_, bad) ↦ absurd (cc (rw (ga, bad) at h))
      | inl (b, eb) ↦ elim (Result-split (json.leaf_index_to_vec n)) [
        | inr (_, bad) ↦ absurd (cc (rw (ga, eb, bad) at h))
        | inl (c, nc) ↦ (a ++ b ++ c, sym (ok_injective (rw (ga, eb, nc) at h)))
      ]
    ]
  ]
