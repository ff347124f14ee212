-- ===== src/Prelude/ByteStrings.antt =====
-- Byte strings (`Vec<u8>`, `&[u8]`, `[u8; N]`) as lists of numbers below 256, their equality, prefix
-- and order tests, and the big-endian words of `to_be_bytes` and `from_be_bytes`.
use Prim.Native.Nat.{ℕ, zero, suc, ◌+◌, ◌*◌, ◌/◌, ◌%◌, ◌^◌, ◌<◌}
use Prim.Native.Char.{code}
use Prim.Native.String.{String}
use mathlib.Core.Path.{◌≡◌, refl, ap}
use mathlib.Core.Logic.{◌↔◌}
use mathlib.Core.Bool.{Bool, true, false, ◌&&◌, ◌||◌}
use mathlib.Core.List.{List, [], ◌∷◌, ◌++◌}
use native.Mathlib.Omega.{arith}
use native.Mathlib.Nat.{div-add-mod', pow-suc, pow-succ', mod-lt, mod-eq_of_lt}
use openmls_dart.Prelude.Tests.{ltb, ◌==◌}
use openmls_dart.Prelude.Lists.{length, All}

abbrev pub Bytes : Type 0
Bytes = List ℕ

abbrev pub IsByte : ℕ → Type 0
IsByte b = b < 256

-- `b"..."`: the bytes of an ASCII text.
abbrev pub ascii : String → Bytes
ascii String.[] = []
ascii (String.◌∷◌ c s) = code c ∷ ascii s

unfoldable pub bytes_eq : Bytes → Bytes → Bool
bytes_eq [] [] = true
bytes_eq [] (y ∷ ys) = false
bytes_eq (x ∷ xs) [] = false
bytes_eq (x ∷ xs) (y ∷ ys) = x == y && bytes_eq xs ys

pub bytes_eq_refl : (xs : Bytes) → bytes_eq xs xs ≡ true
unfolding bytes_eq
bytes_eq_refl [] = refl
bytes_eq_refl (x ∷ xs) = ground (arith, bytes_eq_refl xs)

pub eq_of_bytes_eq : (xs ys : Bytes) → bytes_eq xs ys ≡ true → xs ≡ ys
unfolding bytes_eq
eq_of_bytes_eq [] [] h = refl
eq_of_bytes_eq [] (y ∷ ys) h = cc
eq_of_bytes_eq (x ∷ xs) [] h = cc
eq_of_bytes_eq (x ∷ xs) (y ∷ ys) h = ground (arith, eq_of_bytes_eq xs ys)

pub bytes_eq_iff : (xs ys : Bytes) → (bytes_eq xs ys ≡ true) ↔ (xs ≡ ys)
bytes_eq_iff xs ys = (eq_of_bytes_eq xs ys, λ e. rw e (bytes_eq_refl ys))

pub bytes_eq_comm : (xs ys : Bytes) → bytes_eq xs ys ≡ bytes_eq ys xs
unfolding bytes_eq
bytes_eq_comm [] [] = refl
bytes_eq_comm [] (y ∷ ys) = refl
bytes_eq_comm (x ∷ xs) [] = refl
bytes_eq_comm (x ∷ xs) (y ∷ ys) = ground (arith, bytes_eq_comm xs ys)

-- `slice::starts_with`, the prefix as the first argument.
unfoldable pub starts_with : Bytes → Bytes → Bool
starts_with [] ys = true
starts_with (x ∷ xs) [] = false
starts_with (x ∷ xs) (y ∷ ys) = x == y && starts_with xs ys

pub starts_with-append : (xs ys : Bytes) → starts_with xs (xs ++ ys) ≡ true
unfolding starts_with
starts_with-append [] ys = refl
starts_with-append (x ∷ xs) ys = ground (arith, starts_with-append xs ys)

-- Lexicographic order, `Ord` of `Vec<u8>`.
unfoldable pub bytes_le : Bytes → Bytes → Bool
bytes_le [] ys = true
bytes_le (x ∷ xs) [] = false
bytes_le (x ∷ xs) (y ∷ ys) = ltb x y || (x == y && bytes_le xs ys)

pub bytes_le_refl : (xs : Bytes) → bytes_le xs xs ≡ true
unfolding bytes_le
bytes_le_refl [] = refl
bytes_le_refl (x ∷ xs) = ground (arith, bytes_le_refl xs)

pub bytes_le-total : (xs ys : Bytes) → bytes_le xs ys ≡ false → bytes_le ys xs ≡ true
unfolding bytes_le
bytes_le-total [] ys h = cc
bytes_le-total (x ∷ xs) [] h = refl
bytes_le-total (x ∷ xs) (y ∷ ys) h = ground (arith, bytes_le-total xs ys)

-- Byte `w - 1` of the word first.
unfoldable pub to_be_bytes : ℕ → ℕ → Bytes
to_be_bytes zero n = []
to_be_bytes (suc w) n = (n / 256 ^ w % 256) ∷ to_be_bytes w (n % 256 ^ w)

unfoldable pub from_be_bytes : Bytes → ℕ
from_be_bytes [] = 0
from_be_bytes (b ∷ bs) = b * 256 ^ length bs + from_be_bytes bs

pub length-to_be_bytes : (w n : ℕ) → length (to_be_bytes w n) ≡ w
unfolding to_be_bytes
length-to_be_bytes zero n = refl
length-to_be_bytes (suc w) n = ap suc (length-to_be_bytes w (n % 256 ^ w))

pub to_be_bytes-IsByte : (w n : ℕ) → All IsByte (to_be_bytes w n)
unfolding to_be_bytes
to_be_bytes-IsByte zero n = tt
to_be_bytes-IsByte (suc w) n = (omega arith, to_be_bytes-IsByte w (n % 256 ^ w))

pow256_pos : (w : ℕ) → 0 < 256 ^ w
pow256_pos zero = omega arith
pow256_pos (suc w) = rw pow-suc (omega (arith, pow256_pos w))

-- A word as its top part over its low part.
word_div : (P b v : ℕ) → v < P → (b * P + v) / P ≡ b
word_div P b v h = grind arith

word_mod : (P b v : ℕ) → v < P → (b * P + v) % P ≡ v
word_mod P b v h = grind arith

div-lt-256 : (P n : ℕ) → 0 < P → n < 256 * P → n / P < 256
div-lt-256 P n p h = grind arith

word_join : (P n : ℕ) → 0 < P → n < 256 * P → n / P % 256 * P + n % P ≡ n
word_join P n p h = rw (mod-eq_of_lt (div-lt-256 P n p h)) (div-add-mod' n P)

word_lt : (P b v : ℕ) → b < 256 → v < P → b * P + v < 256 * P
word_lt P b v hb hv = grind arith

pub from-to_be_bytes : (w n : ℕ) → n < 256 ^ w → from_be_bytes (to_be_bytes w n) ≡ n
unfolding to_be_bytes from_be_bytes
from-to_be_bytes zero n h = omega arith
from-to_be_bytes (suc w) n h =
    rw
      (
        length-to_be_bytes w (n % 256 ^ w),
        from-to_be_bytes w (n % 256 ^ w) (mod-lt n (pow256_pos w)),
      )
      (word_join (256 ^ w) n (pow256_pos w) (rw pow-succ' at h))

pub from_be_bytes-lt : (bs : Bytes) → All IsByte bs → from_be_bytes bs < 256 ^ length bs
unfolding from_be_bytes
from_be_bytes-lt [] h = omega arith
from_be_bytes-lt (b ∷ bs) h =
    rw pow-succ' (word_lt (256 ^ length bs) b (from_be_bytes bs) h.0 (from_be_bytes-lt bs h.1))

pub to-from_be_bytes :
    (bs : Bytes) → All IsByte bs → to_be_bytes (length bs) (from_be_bytes bs) ≡ bs
unfolding to_be_bytes from_be_bytes
to-from_be_bytes [] h = refl
to-from_be_bytes (b ∷ bs) h =
    rw
      (
        word_div (256 ^ length bs) b (from_be_bytes bs) (from_be_bytes-lt bs h.1),
        word_mod (256 ^ length bs) b (from_be_bytes bs) (from_be_bytes-lt bs h.1),
        to-from_be_bytes bs h.1,
      )
      (ap (λ (t : ℕ). t ∷ bs) (mod-eq_of_lt h.0))
