-- ===== src/Account/Text.antt =====
-- The texts of rust/src/api/account_envelope/invitation.rs: a `str` is the list of its characters, a
-- character its Unicode scalar value, and its bytes are the UTF-8 encoding.
pub mod Utf8
use openmls_dart.Prelude.{
  ℕ, zero, suc, ◌+◌, ◌*◌, ◌/◌, ◌%◌, Bool, true, false, not, ◌&&◌, ◌||◌, Option, none, some, List,
  [], ◌∷◌, ◌++◌, all, Bytes, bytes_eq, leb, ltb, ◌==◌, if◌then◌else◌,
}

abbrev pub Chars : Type 0
Chars = List ℕ

-- A surrogate is no scalar value.
unfoldable pub is_scalar : ℕ → Bool
is_scalar c = ltb c 55296 || (leb 57344 c && ltb c 1114112)

unfoldable pub utf8_char : ℕ → Bytes
utf8_char c =
    if ltb c 128
    then c ∷ []
    else if ltb c 2048
    then (192 + c / 64) ∷ (128 + c % 64) ∷ []
    else if ltb c 65536
    then (224 + c / 4096) ∷ (128 + c / 64 % 64) ∷ (128 + c % 64) ∷ []
    else (240 + c / 262144) ∷ (128 + c / 4096 % 64) ∷ (128 + c / 64 % 64) ∷ (128 + c % 64) ∷ []

-- `str::as_bytes`.
abbrev pub as_bytes : Chars → Bytes
as_bytes [] = []
as_bytes (c ∷ cs) = utf8_char c ++ as_bytes cs

-- The number of bytes that follow a first byte, and its own bits.
unfoldable pub lead_byte : ℕ → Option (ℕ × ℕ)
lead_byte b =
    if ltb b 128
    then some (0, b)
    else if b / 32 == 6
    then some (1, b % 32)
    else if b / 16 == 14
    then some (2, b % 16)
    else if b / 8 == 30
    then some (3, b % 8)
    else none

abbrev pub put_char : ℕ → ℕ → Option Chars → Option Chars
put_char need c none = none
put_char need c (some cs) = if need == 0 then some (c ∷ cs) else some cs

abbrev pub decode_lead : (ℕ → ℕ → Option Chars) → Option (ℕ × ℕ) → Option Chars
decode_lead k none = none
decode_lead k (some (need, bits)) = put_char need bits (k need bits)

-- The characters of bytes, where `need` more bytes belong to one whose bits so far are `bits`.
unfoldable pub decode_from : Bytes → ℕ → ℕ → Option Chars
decode_from [] zero bits = some []
decode_from [] (suc need) bits = none
decode_from (b ∷ bs) zero bits = decode_lead (decode_from bs) (lead_byte b)
decode_from (b ∷ bs) (suc need) bits =
    let rest = decode_from bs need (bits * 64 + b % 64) in
    if b / 64 == 2 then put_char need (bits * 64 + b % 64) rest else none

abbrev pub exactly : Bytes → Option Chars → Option Chars
exactly input none = none
exactly input (some cs) = if all is_scalar cs && bytes_eq (as_bytes cs) input then some cs else none

-- `std::str::from_utf8`: the text whose encoding the bytes are, if there is one. That the bytes are
-- the encoding rules out the longer forms.
unfoldable pub from_utf8 : Bytes → Option Chars
from_utf8 input = exactly input (decode_from input 0 0)
