-- ===== src/Storage/Typed/Laws.antt =====
-- Typed rows of rust/src/snapshot_storage.rs are read back as they were written, and writing one
-- leaves every other one alone.
use openmls_dart.Prelude.{
  ℕ, ◌≡◌, ◌≢◌, sym, ◌∙◌, false, none, some, Bytes, bytes_eq, bytes_eq_refl, Result, ok,
  Result-split, inl, inr, Bool-cases, Option-cases, eq_of_bytes_eq,
}
use openmls_dart.Storage.Rows.{get-insert, get-remove}
use openmls_dart.Storage.Labels.{build_key}
use openmls_dart.Storage.Labels.Disjoint.{IsLabel, build_key_injective}
use openmls_dart.Storage.Snapshot.{SnapshotStorageProvider, kv_write, kv_read, kv_delete}
use openmls_dart.Storage.Typed.{
  SnapshotStorageError, Serialize, Deserialize, deserialize_found, build_key_serde, write_val,
  read_val, delete_val,
}

-- What serde promises of a type: a value that is written is read back.
abbrev pub Restores : {A : Type 0} → Serialize A → Deserialize A → Type 0
Restores {A} vs vd = (a : A) (bytes : Bytes) → vs.to_vec a ≡ ok bytes → vd.from_slice bytes ≡ ok a

pub read-write : (k v : Bytes) (p : SnapshotStorageProvider) → kv_read k (kv_write k v p) ≡ some v
unfolding kv_read kv_write
read-write k v p = get-insert k k v p.current ∙ rw (bytes_eq_refl k)

pub read-write_ne :
    (k j v : Bytes) (p : SnapshotStorageProvider)
    → bytes_eq k j ≡ false
    → kv_read j (kv_write k v p) ≡ kv_read j p
unfolding kv_read kv_write
read-write_ne k j v p n = get-insert k j v p.current ∙ rw n

pub read-delete : (k : Bytes) (p : SnapshotStorageProvider) → kv_read k (kv_delete k p) ≡ none
unfolding kv_read kv_delete
read-delete k p = get-remove k k p.current ∙ rw (bytes_eq_refl k)

pub read-delete_ne :
    (k j : Bytes) (p : SnapshotStorageProvider)
    → bytes_eq k j ≡ false
    → kv_read j (kv_delete k p) ≡ kv_read j p
unfolding kv_read kv_delete
read-delete_ne k j p n = get-remove k j p.current ∙ rw n

module _ {K A : Type 0} ⦃ks : Serialize K⦄ ⦃vs : Serialize A⦄ ⦃vd : Deserialize A⦄ (v : ℕ)
    (label : Bytes) (key : K) (p : SnapshotStorageProvider) where
  -- A successful write has a key and a value, and is the write of one row.
  write_val-row :
      (value : A)
      → (write_val v label key value p).0 ≡ ok tt
      → (k : Bytes) × (bytes : Bytes) × (build_key_serde v label key ≡ ok k)
        × (vs.to_vec value ≡ ok bytes)
        × (write_val v label key value p ≡ (ok tt, kv_write k bytes p))
  unfolding write_val
  write_val-row value h = elim (Result-split (build_key_serde v label key)) [
    | inr (e, bad) ↦ absurd (cc (rw bad at h))
    | inl (k, good) ↦ elim (Result-split (vs.to_vec value)) [
      | inr (e, bad) ↦ absurd (cc (rw (good, bad) at h))
      | inl (bytes, fine) ↦ (k, bytes, good, fine, rw (good, fine))
    ]
  ]

  pub read_val-write_val :
      (value : A)
      → Restores vs vd
      → (write_val v label key value p).0 ≡ ok tt
      → (read_val v label key (write_val v label key value p).1).0 ≡ ok (some value)
  unfolding read_val
  read_val-write_val value restores h =
      let (k, bytes, good, fine, row) = write_val-row value h in
      rw (row, good, read-write k bytes p, restores value bytes fine)

  pub read_val-delete_val :
      (delete_val v label key p).0 ≡ ok tt
      → (read_val {A = A} v label key (delete_val v label key p).1).0 ≡ ok none
  unfolding read_val delete_val
  read_val-delete_val h = elim (Result-split (build_key_serde v label key)) [
    | inr (e, bad) ↦ absurd (cc (rw bad at h))
    | inl (k, good) ↦ rw (good, read-delete k p)
  ]

pub build_key_serde-eq-ok :
    {K : Type 0} ⦃ks : Serialize K⦄ (v : ℕ) (label : Bytes) (key : K) {k : Bytes}
    → build_key_serde v label key ≡ ok k
    → (key_bytes : Bytes) × (ks.to_vec key ≡ ok key_bytes) × (k ≡ build_key v label key_bytes)
unfolding build_key_serde
build_key_serde-eq-ok ⦃ks⦄ v label key h = elim (Result-split (ks.to_vec key)) [
  | inr (e, bad) ↦ absurd (cc (rw bad at h))
  | inl (key_bytes, good) ↦ (key_bytes, good, key_of (rw good at h))
]
  where
    key_of : {a b : Bytes} → ◌≡◌ {A = Result SnapshotStorageError Bytes} (ok a) (ok b) → b ≡ a
    key_of e = cc

-- Keys under different labels are different.
other_label :
    {K J : Type 0} ⦃ks : Serialize K⦄ ⦃js : Serialize J⦄ (v : ℕ) (l m : Bytes) (key : K) (other : J)
    {k j : Bytes}
    → IsLabel l
    → IsLabel m
    → l ≢ m
    → build_key_serde v l key ≡ ok k
    → build_key_serde v m other ≡ ok j
    → bytes_eq k j ≡ false
other_label v l m key other {k} {j} hl hm ne hk hj = elim (Bool-cases (bytes_eq k j)) [
  | inr n ↦ n
  | inl e ↦
      let (kb, _, ke) = build_key_serde-eq-ok v l key hk in
      let (jb, _, je) = build_key_serde-eq-ok v m other hj in
      absurd (ne (build_key_injective v l m kb jb hl hm (sym ke ∙ eq_of_bytes_eq k j e ∙ je)).0)
]

module _ {K A J B : Type 0} ⦃ks : Serialize K⦄ ⦃vs : Serialize A⦄ ⦃js : Serialize J⦄
    ⦃ws : Deserialize B⦄ (v : ℕ) (l m : Bytes) (key : K) (other : J) (value : A)
    (p : SnapshotStorageProvider) where
  -- Whether or not a write succeeds, a row under another label reads as it did before, whatever the
  -- two keys are.
  pub read_val-write_val_ne :
      IsLabel l
      → IsLabel m
      → l ≢ m
      → (read_val {A = B} v m other (write_val v l key value p).1).0
        ≡ (read_val {A = B} v m other p).0
  unfolding read_val write_val
  read_val-write_val_ne hl hm ne = elim (Result-split (build_key_serde v l key)) [
    | inr (e, bad) ↦ rw bad
    | inl (k, good) ↦ elim (Result-split (vs.to_vec value)) [
      | inr (e, bad) ↦ rw (good, bad)
      | inl (bytes, fine) ↦ elim (Result-split (build_key_serde v m other)) [
        | inr (e, bad) ↦ rw (good, fine, bad)
        | inl (j, there) ↦
            rw
              (
                good,
                fine,
                there,
                read-write_ne k j bytes p (other_label v l m key other hl hm ne good there),
              )
              (found_elsewhere j bytes k)
      ]
    ]
  ]
    where
      found_elsewhere :
          (j bytes k : Bytes)
          → (deserialize_found {A = B} (kv_read j p) (kv_write k bytes p)).0
            ≡ (deserialize_found {A = B} (kv_read j p) p).0
      found_elsewhere j bytes k = elim (Option-cases (kv_read j p)) [
        | inl gone ↦ rw gone
        | inr (b, there) ↦ elim (Result-split (ws.from_slice b)) [
          | inl (x, parsed) ↦ rw (there, parsed)
          | inr (e, bad) ↦ rw (there, bad)
        ]
      ]
