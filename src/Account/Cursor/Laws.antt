-- ===== src/Account/Cursor/Laws.antt =====
-- Reading back what was written: the cursor of rust/src/api/account_envelope/codec.rs.
use openmls_dart.Prelude.{
  ℕ, suc, ◌+◌, ◌*◌, ◌≡◌, ◌<◌, ◌^◌, ap, sym, ◌∙◌, true, Option, none, some, [], ◌∷◌, ◌++◌, length,
  Bytes, leb, arith, from_be_bytes, to_be_bytes, from-to_be_bytes, append-nil, ok, length-append,
  take-append, drop-append, length-to_be_bytes,
}
use openmls_dart.Account.Types.{AccountEnvelopeErrorCodeV1}
use openmls_dart.Account.Cursor.{
  Reader, ◌>>=◌, read_array, read_u8, read_u16, read_u64, read_suite, read_optional, suite_bytes,
  optional_bytes,
}

pub read_array-append :
    (n : ℕ) (xs rest : Bytes) → length xs ≡ n → read_array n (xs ++ rest) ≡ ok (xs, rest)
unfolding read_array
read_array-append n xs rest h = rw (← h, fits, take-append xs rest, drop-append xs rest)
  where
    fits : leb (length xs) (length (xs ++ rest)) ≡ true
    fits = ground (arith, length-append xs rest)

pub one_fits : (rest : Bytes) → leb 1 (suc (length rest)) ≡ true
one_fits rest = ground arith

pub single : (b : ℕ) → b * 256 ^ 0 + 0 ≡ b
single b = omega arith

pub read_u8-cons : (b : ℕ) (rest : Bytes) → read_u8 (b ∷ rest) ≡ ok (b, rest)
unfolding read_u8 read_array from_be_bytes
read_u8-cons b rest = rw (one_fits rest, single b)

pub read_u16-append :
    (n : ℕ) (rest : Bytes) → n < 2 ^ 16 → read_u16 (to_be_bytes 2 n ++ rest) ≡ ok (n, rest)
unfolding read_u16
read_u16-append n rest h = rw (
  read_array-append 2 (to_be_bytes 2 n) rest (length-to_be_bytes 2 n),
  from-to_be_bytes 2 n (omega arith),
)

pub read_u64-append :
    (n : ℕ) (rest : Bytes) → n < 2 ^ 64 → read_u64 (to_be_bytes 8 n ++ rest) ≡ ok (n, rest)
unfolding read_u64
read_u64-append n rest h = rw (
  read_array-append 8 (to_be_bytes 8 n) rest (length-to_be_bytes 8 n),
  from-to_be_bytes 8 n (omega arith),
)

pub read_suite-append :
    (e : AccountEnvelopeErrorCodeV1) (rest : Bytes)
    → read_suite e (suite_bytes ++ rest) ≡ ok (tt, rest)
unfolding read_suite read_u16 read_array to_be_bytes from_be_bytes
read_suite-append e rest = ground arith

-- The array that is there has its length.
abbrev pub HasLength : ℕ → Option Bytes → Type 0
HasLength n none = Unit
HasLength n (some bytes) = length bytes ≡ n

pub read_array_whole : (n : ℕ) (xs : Bytes) → length xs ≡ n → read_array n xs ≡ ok (xs, [])
read_array_whole n xs h = ap (read_array n) (sym (append-nil xs)) ∙ read_array-append n xs [] h

-- An optional array is read back with the byte before it.
pub optional_then :
    {B : Type 0} (n : ℕ) (e : AccountEnvelopeErrorCodeV1) (k : Option Bytes) (rest : Bytes)
    (f : Option Bytes → Reader B)
    → HasLength n k
    → (read_u8 >>= λ flag. read_optional n e flag >>= f) (optional_bytes k ++ rest) ≡ f k rest
unfolding read_optional
optional_then n e none rest f h = rw (read_u8-cons 0 rest)
optional_then n e (some key) rest f h =
    rw (read_u8-cons 1 (key ++ rest), read_array-append n key rest h)

-- The same at the end of the input.
pub optional_last :
    {B : Type 0} (n : ℕ) (e : AccountEnvelopeErrorCodeV1) (k : Option Bytes)
    (f : Option Bytes → Reader B)
    → HasLength n k
    → (read_u8 >>= λ flag. read_optional n e flag >>= f) (optional_bytes k) ≡ f k []
optional_last n e k f h =
    ap (read_u8 >>= λ flag. read_optional n e flag >>= f) (sym (append-nil (optional_bytes k)))
    ∙ optional_then n e k [] f h
