-- ===== src/Storage/Rows.antt =====
-- The `HashMap<Vec<u8>, Vec<u8>>` of rust/src/snapshot_storage.rs as an association list. The list
-- is in the order of iteration, which the program does not rely on.
use openmls_dart.Prelude.{
  ◌≡◌, refl, Bool, Option, none, some, List, [], ◌∷◌, arith, Bytes, bytes_eq, bytes_eq_iff,
  bytes_eq_comm, ◌∙◌, eq_of_bytes_eq, if◌then◌else◌, is_some, keep, Bool-cases, inl, inr,
}

abbrev pub Row : Type 0
Row = Bytes × Bytes

abbrev pub Rows : Type 0
Rows = List Row

-- `HashMap::get`.
unfoldable pub get : Bytes → Rows → Option Bytes
get k [] = none
get k ((j, v) ∷ m) = if bytes_eq j k then some v else get k m

-- `HashMap::insert`: a key that is there keeps its place.
unfoldable pub insert : Bytes → Bytes → Rows → Rows
insert k v [] = (k, v) ∷ []
insert k v ((j, w) ∷ m) = if bytes_eq j k then (k, v) ∷ m else (j, w) ∷ insert k v m

-- `HashMap::remove`.
unfoldable pub remove : Bytes → Rows → Rows
remove k [] = []
remove k ((j, w) ∷ m) = if bytes_eq j k then remove k m else (j, w) ∷ remove k m

-- `HashMap::contains_key`.
abbrev pub contains_key : Bytes → Rows → Bool
contains_key k m = is_some (get k m)

-- No key occurs twice: the list stands for a map.
abbrev pub IsMap : Rows → Type 0
IsMap [] = Unit
IsMap ((k, v) ∷ m) = (get k m ≡ none) × IsMap m

pub get-insert :
    (k j v : Bytes) (m : Rows) → get j (insert k v m) ≡ (if bytes_eq k j then some v else get j m)
unfolding get insert
get-insert k j v [] = refl
get-insert k j v ((i, w) ∷ m) =
    ground (arith, bytes_eq_iff i k, bytes_eq_iff i j, bytes_eq_iff k j, get-insert k j v m)

pub get-remove :
    (k j : Bytes) (m : Rows) → get j (remove k m) ≡ (if bytes_eq k j then none else get j m)
unfolding get remove
get-remove k j [] = ground arith
get-remove k j ((i, w) ∷ m) =
    ground (arith, bytes_eq_iff i k, bytes_eq_iff i j, bytes_eq_iff k j, get-remove k j m)

pub insert-IsMap : (k v : Bytes) (m : Rows) → IsMap m → IsMap (insert k v m)
unfolding insert get
insert-IsMap k v [] h = (refl, tt)
insert-IsMap k v ((j, w) ∷ m) h = elim (Bool-cases (bytes_eq j k)) [
  | inl e ↦ rw (e, ← eq_of_bytes_eq j k e) h
  | inr n ↦ rw n (get-insert k j v m ∙ rw (bytes_eq_comm k j, n) h.0, insert-IsMap k v m h.1)
]

pub remove-IsMap : (k : Bytes) (m : Rows) → IsMap m → IsMap (remove k m)
unfolding remove get
remove-IsMap k [] h = tt
remove-IsMap k ((j, w) ∷ m) h = elim (Bool-cases (bytes_eq j k)) [
  | inl e ↦ rw e (remove-IsMap k m h.1)
  | inr n ↦ rw n (get-remove k j m ∙ rw (bytes_eq_comm k j, n) h.0, remove-IsMap k m h.1)
]

-- What a row test keeps, seen through `get`.
abbrev pub kept : (Row → Bool) → Bytes → Option Bytes → Option Bytes
kept p k none = none
kept p k (some v) = if p (k, v) then some v else none

pub get-keep :
    (p : Row → Bool) (k : Bytes) (m : Rows) → IsMap m → get k (keep p m) ≡ kept p k (get k m)
unfolding get
get-keep p k [] h = refl
get-keep p k ((j, v) ∷ m) h = ground (arith, bytes_eq_iff j k, get-keep p k m, h.0)
