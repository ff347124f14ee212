-- ===== src/Receive/Preflight.antt =====
-- The check of a payload before it is decoded, `preflight_cbor` of rust/src/native_receive_v1.rs. The
-- input of a scanner is what remains of it, beside the number of items.
pub mod Argument
pub mod Progress
use openmls_dart.Prelude.{
  ℕ, zero, suc, ◌+◌, ◌*◌, ◌/◌, ◌%◌, Bool, true, false, not, ◌&&◌, Option, none, some, List, [], ◌∷◌,
  length, take, drop, Bytes, leb, ltb, ◌==◌, from_be_bytes, Result, ok, err, guard, ◌>>=◌, ◌>>◌,
  if◌then◌else◌,
}
use openmls_dart.Receive.Frame.{
  NativeReceiveErrorCodeV1, invalid_frame, noncanonical_encoding, limit_exceeded,
}

abbrev pub preflight_max_depth : ℕ
preflight_max_depth = 6

abbrev pub preflight_max_items : ℕ
preflight_max_items = 32768

abbrev pub preflight_max_map_entries : ℕ
preflight_max_map_entries = 32

abbrev pub native_receive_storage_max_bytes : ℕ
native_receive_storage_max_bytes = 6 * 1024 * 1024

abbrev pub native_receive_storage_max_entries : ℕ
native_receive_storage_max_entries = 4096

-- `CborPreflight`.
pub record CborPreflight : Type 0 where
  pub input : Bytes
  pub items : ℕ

abbrev pub Scan : Type 0 → Type 0
Scan A = Result NativeReceiveErrorCodeV1 A

abbrev pub preflight_byte : Bytes → Scan (ℕ × Bytes)
preflight_byte [] = err invalid_frame
preflight_byte (b ∷ bs) = ok (b, bs)

-- The bytes and what follows; their end does not overflow.
unfoldable pub take_slice : ℕ → Bytes → Scan (Bytes × Bytes)
take_slice n input =
    if leb n (length input) then ok (take n input, drop n input) else err invalid_frame

-- A number in `width` bytes, which is above `bound` if it needs them.
unfoldable pub wide_argument : ℕ → ℕ → Bytes → Scan (ℕ × Bytes)
wide_argument width bound input = do
  slice ← take_slice width input
  guard (not (leb (from_be_bytes slice.0) bound)) noncanonical_encoding
  ok (from_be_bytes slice.0, slice.1)

unfoldable pub argument : ℕ → Bytes → Scan (ℕ × Bytes)
argument additional input =
    if leb additional 23
    then ok (additional, input)
    else if additional == 24
    then wide_argument 1 23 input
    else if additional == 25
    then wide_argument 2 255 input
    else if additional == 26
    then wide_argument 4 65535 input
    else if additional == 27
    then wide_argument 8 4294967295 input
    else err noncanonical_encoding

-- A `u64` is a `usize` on the platforms of the package, or above the maximum with the same error.
unfoldable pub container_length : ℕ → ℕ → Bytes → Scan (ℕ × Bytes)
container_length additional maximum input = do
  found ← argument additional input
  guard (not (ltb maximum found.0)) limit_exceeded
  ok found

-- One more item.
unfoldable pub counted : CborPreflight → Scan CborPreflight
counted s = do
  guard (not (ltb preflight_max_items (s.items + 1))) limit_exceeded
  ok (record s { items = s.items + 1 })

-- The loop over the elements of an array, with what scans one.
abbrev pub repeat : (CborPreflight → Scan CborPreflight) → ℕ → CborPreflight → Scan CborPreflight
repeat k zero s = ok s
repeat k (suc n) s = k s >>= λ next. repeat k n next

abbrev pub not_above : Option ℕ → ℕ → Bool
not_above none key = false
not_above (some previous) key = leb key previous

-- The loop over the entries of a map, with the key before.
abbrev pub entries :
    (CborPreflight → Scan CborPreflight) → ℕ → Option ℕ → CborPreflight → Scan CborPreflight
entries k zero previous s = ok s
entries k (suc n) previous s = do
  initial ← preflight_byte s.input
  guard (initial.0 / 32 == 0) noncanonical_encoding
  key ← argument (initial.0 % 32) initial.1
  guard (not (not_above previous key.0)) noncanonical_encoding
  next ← counted (record s { input = key.1 })
  after ← k next
  entries k n (some key.0) after

-- The `match` on the major type, with what scans a value one level deeper.
unfoldable pub by_major :
    (CborPreflight → Scan CborPreflight) → ℕ → ℕ → CborPreflight → Scan CborPreflight
by_major k major additional s =
    if major == 0
    then (do found ← argument additional s.input; ok (record s { input = found.1 }))
    else if major == 2
    then (do
      found ← argument additional s.input
      guard (not (ltb native_receive_storage_max_bytes found.0)) limit_exceeded
      slice ← take_slice found.0 found.1
      ok (record s { input = slice.1 }))
    else if major == 4
    then (do
      found ← container_length additional native_receive_storage_max_entries s.input
      repeat k found.0 (record s { input = found.1 }))
    else if major == 5
    then (do
      found ← container_length additional preflight_max_map_entries s.input
      entries k found.0 none (record s { input = found.1 }))
    else if major == 7 && (leb 20 additional && leb additional 22)
    then ok s
    else err noncanonical_encoding

-- `value`, by the number of levels that are left: `preflight_max_depth + 1 - depth`.
unfoldable pub value : ℕ → CborPreflight → Scan CborPreflight
value zero s = err limit_exceeded
value (suc levels) s = do
  one ← counted s
  initial ← preflight_byte one.input
  by_major (value levels) (initial.0 / 32) (initial.0 % 32) (record one { input = initial.1 })

abbrev pub is_at_end : Bytes → Bool
is_at_end [] = true
is_at_end (b ∷ bs) = false

unfoldable pub preflight_cbor : Bytes → Scan (Unit {0})
preflight_cbor input = do
  s ← value (preflight_max_depth + 1) (record { input = input; items = 0 })
  guard (is_at_end s.input) noncanonical_encoding
