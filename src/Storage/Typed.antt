-- ===== src/Storage/Typed.antt =====
-- The typed rows of rust/src/snapshot_storage.rs. serde_json and the version number of
-- openmls_traits are not part of the repository: they are the parameters `Serialize`, `Deserialize` and
-- `SerdeJson`.
-- A method on `&self` is an action on the provider, which keeps what it has written when it fails.
pub mod Laws
pub mod Frames
use openmls_dart.Prelude.{
  ℕ, ◌≡◌, Bool, Option, none, some, List, [], ◌∷◌, ◌++◌, String, Bytes, bytes_eq, if◌then◌else◌,
  Result, ok, err, map_err, to_be_bytes,
}
use openmls_dart.Prelude
use openmls_dart.Storage.Labels.{build_key, epoch_key_pairs_label}
use openmls_dart.Storage.Snapshot.{SnapshotStorageProvider, kv_write, kv_read, kv_delete}

pub data SnapshotStorageError : Type 0 where
  serialization : String → SnapshotStorageError
  missing_group_state : SnapshotStorageError

-- `serde_json::to_vec` at one type, with the texts of its errors.
pub record Serialize (A : Type 0) : Type 0 where
  pub to_vec : A → Result String Bytes

-- `serde_json::from_slice` at one type.
pub record Deserialize (A : Type 0) : Type 0 where
  pub from_slice : Bytes → Result String A

-- What else the module takes from outside: `serde_json::Value`, the text of a pair of values, lists
-- of byte strings, the number `CURRENT_VERSION`, and the leaf index of an epoch key.
pub record SerdeJson : Type 1 where
  pub Value : Type 0
  pub pair_to_vec : Value → Value → Result String Bytes
  pub list_to_vec : List Bytes → Result String Bytes
  pub list_from_slice : Bytes → Result String (List Bytes)
  pub current_version : ℕ
  pub leaf_index_to_vec : ℕ → Result String Bytes

-- `serde_json::to_value` at one type.
pub record ToValue (Value A : Type 0) : Type 0 where
  pub to_value : A → Result String Value

abbrev pub Exec : Type 0 → Type 0
Exec A = SnapshotStorageProvider → Result SnapshotStorageError A × SnapshotStorageProvider

abbrev pub continue : {A B : Type 0} → Result SnapshotStorageError A → (A → Exec B) → Exec B
continue (ok a) f p = f a p
continue (err e) f p = (err e, p)

infixl 5 ◌>>=◌ ◌>>◌
abbrev pub ◌>>=◌ : {A B : Type 0} → Exec A → (A → Exec B) → Exec B
◌>>=◌ m f p = continue (m p).0 f (m p).1

abbrev pub ◌>>◌ : {B : Type 0} → Exec (Unit {0}) → Exec B → Exec B
m >> n = m >>= λ _. n

abbrev pub pure : {A : Type 0} → A → Exec A
pure a p = (ok a, p)

abbrev pub lift : {A : Type 0} → Result SnapshotStorageError A → Exec A
lift r p = (r, p)

-- `.map_err(|e| SnapshotStorageError::Serialization(e.to_string()))?`.
abbrev pub serde : {A : Type 0} → Result String A → Exec A
serde r p = (map_err serialization r, p)

abbrev pub write : Bytes → Bytes → Exec (Unit {0})
write k v p = (ok tt, kv_write k v p)

abbrev pub read : Bytes → Exec (Option Bytes)
read k p = (ok (kv_read k p), p)

abbrev pub delete : Bytes → Exec (Unit {0})
delete k p = (ok tt, kv_delete k p)

-- `match` on what is found: `None` is no error.
abbrev pub deserialize_found : {A : Type 0} ⦃vs : Deserialize A⦄ → Option Bytes → Exec (Option A)
deserialize_found none = pure none
deserialize_found ⦃vs⦄ (some bytes) = do value ← serde (vs.from_slice bytes); pure (some value)

module _ {K : Type 0} ⦃ks : Serialize K⦄ where
  -- `build_key_serde`, on its way to a storage key.
  unfoldable pub build_key_serde : ℕ → Bytes → K → Result SnapshotStorageError Bytes
  build_key_serde v label key =
      Prelude.◌>>=◌ (map_err serialization (ks.to_vec key))
        (λ key_bytes. ok (build_key v label key_bytes))

  unfoldable pub write_val : {A : Type 0} ⦃vs : Serialize A⦄ → ℕ → Bytes → K → A → Exec (Unit {0})
  write_val ⦃vs⦄ v label key value = do
    storage_key ← lift (build_key_serde v label key)
    val_bytes ← serde (vs.to_vec value)
    write storage_key val_bytes

  unfoldable pub read_val : {A : Type 0} ⦃vs : Deserialize A⦄ → ℕ → Bytes → K → Exec (Option A)
  read_val v label key = do
    storage_key ← lift (build_key_serde v label key)
    found ← read storage_key
    deserialize_found found

  unfoldable pub delete_val : ℕ → Bytes → K → Exec (Unit {0})
  delete_val v label key = do storage_key ← lift (build_key_serde v label key); delete storage_key

-- The loop of `read_list` takes items from the end: of two bad items the later one is reported.
unfoldable pub from_items :
    {A : Type 0} ⦃vs : Deserialize A⦄ → List Bytes → Result SnapshotStorageError (List A)
from_items [] = ok []
from_items ⦃vs⦄ (item ∷ items) = Prelude.◌>>=◌ (from_items items) (λ rest.
    Prelude.◌>>=◌ (map_err serialization (vs.from_slice item)) (λ value. ok (value ∷ rest)))

-- `position` and `remove`: the first equal item goes.
unfoldable pub remove_first : Bytes → List Bytes → List Bytes
remove_first item [] = []
remove_first item (x ∷ xs) = if bytes_eq x item then xs else x ∷ remove_first item xs

module _ (json : SerdeJson) where
  -- The stored list, empty where there is no row.
  abbrev pub stored_list : Option Bytes → Exec (List Bytes)
  stored_list none = pure []
  stored_list (some bytes) = serde (json.list_from_slice bytes)

  -- Behind the `match`: with no row nothing happens.
  unfoldable pub remove_found : Bytes → Bytes → Option Bytes → Exec (Unit {0})
  remove_found storage_key item none = pure tt
  remove_found storage_key item (some bytes) = do
    list ← serde (json.list_from_slice bytes)
    val_bytes ← serde (json.list_to_vec (remove_first item list))
    write storage_key val_bytes

  module _ {K : Type 0} ⦃ks : Serialize K⦄ where
    unfoldable pub append_to_list : ℕ → Bytes → K → Bytes → Exec (Unit {0})
    append_to_list v label key item = do
      storage_key ← lift (build_key_serde v label key)
      found ← read storage_key
      list ← stored_list found
      val_bytes ← serde (json.list_to_vec (list ++ item ∷ []))
      write storage_key val_bytes

    unfoldable pub read_list : {A : Type 0} ⦃vs : Deserialize A⦄ → ℕ → Bytes → K → Exec (List A)
    read_list v label key = do
      storage_key ← lift (build_key_serde v label key)
      found ← read storage_key
      raw_list ← stored_list found
      lift (from_items raw_list)

    unfoldable pub remove_from_list : ℕ → Bytes → K → Bytes → Exec (Unit {0})
    remove_from_list v label key item = do
      storage_key ← lift (build_key_serde v label key)
      found ← read storage_key
      remove_found storage_key item found

  module _ {G E : Type 0} ⦃gs : Serialize G⦄ ⦃es : Serialize E⦄ where
    unfoldable pub build_epoch_key : ℕ → G → E → ℕ → Result SnapshotStorageError Bytes
    build_epoch_key v group_id epoch leaf_index =
        Prelude.◌>>=◌ (map_err serialization (gs.to_vec group_id)) (λ group_bytes.
          Prelude.◌>>=◌ (map_err serialization (es.to_vec epoch)) (λ epoch_bytes.
            Prelude.◌>>=◌ (map_err serialization (json.leaf_index_to_vec leaf_index)) (λ leaf_bytes.
              ok (build_key v epoch_key_pairs_label (group_bytes ++ epoch_bytes ++ leaf_bytes)))))
