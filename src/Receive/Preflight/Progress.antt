-- ===== src/Receive/Preflight/Progress.antt =====
-- The items that the scanner of rust/src/native_receive_v1.rs counts, and the bytes that it consumes.
use openmls_dart.Prelude.{
  ℕ, zero, suc, ◌+◌, ◌≤◌, ◌≡◌, inl, inr, ap, sym, ◌∙◌, not, ◌&&◌, Option, none, some, [], ◌∷◌,
  length, Bytes, length-append, ltb, leb, ◌==◌, ◌/◌, ◌%◌, arith, ok, guard, guard-eq-ok, Bool-cases,
  >>=-eq-ok, >>-eq-ok, ok_injective, from_be_bytes,
}
use mathlib.Core.Path.{subst}
use openmls_dart.Receive.Frame.{noncanonical_encoding, limit_exceeded}
use openmls_dart.Receive.Preflight.{
  native_receive_storage_max_bytes, CborPreflight, Scan, preflight_byte, take_slice, wide_argument,
  argument, container_length, counted, repeat, not_above, entries, by_major, value,
}
use openmls_dart.Receive.Preflight.Argument.{take_slice-eq-ok}

-- Fewer than the maximum were counted, and one byte at least was consumed for each.
pub record Progress (s t : CborPreflight) : Type 0 where
  pub bounded : s.items ≤ 32768 → t.items ≤ 32768
  pub counts : s.items ≤ t.items
  pub consumes : length t.input + t.items ≤ length s.input + s.items

Progress-refl : (s : CborPreflight) → Progress s s
Progress-refl s = record { bounded = λ h. h; counts = omega arith; consumes = omega arith }

Progress-trans : (s t u : CborPreflight) → Progress s t → Progress t u → Progress s u
Progress-trans s t u p q = record {
  bounded = λ h. q.bounded (p.bounded h);
  counts = omega (arith, p.counts, q.counts);
  consumes = omega (arith, p.consumes, q.consumes);
}

-- Only the input has shrunk.
shrunk :
    (s : CborPreflight) (rest : Bytes)
    → length rest ≤ length s.input
    → Progress s (record s { input = rest })
shrunk s rest h = record { bounded = λ b. b; counts = omega arith; consumes = omega (arith, h) }

slice_shrinks :
    (w : ℕ) (input xs rest : Bytes)
    → take_slice w input ≡ ok (xs, rest)
    → length rest ≤ length input
slice_shrinks w input xs rest h =
    let (joined, _, _) = take_slice-eq-ok w input xs rest h in
    rw (joined, length-append xs rest) (omega arith)

wide_shrinks :
    (w bound n : ℕ) (input rest : Bytes)
    → wide_argument w bound input ≡ ok (n, rest)
    → length rest ≤ length input
unfolding wide_argument
wide_shrinks w bound n input rest h =
    let ((xs, after), found, h1) = >>=-eq-ok (take_slice w input) _ h in
    let (_, same) =
      >>-eq-ok (guard (not (leb (from_be_bytes xs) bound)) noncanonical_encoding) _ h1 in
    subst (λ t. length t ≤ length input) (ap (λ (q : ℕ × Bytes). q.1) (ok_injective same))
      (slice_shrinks w input xs after found)

argument_shrinks :
    (a n : ℕ) (input rest : Bytes) → argument a input ≡ ok (n, rest) → length rest ≤ length input
unfolding argument
argument_shrinks a n input rest h = elim (Bool-cases (leb a 23)) [
  | inl small ↦
      let same : (a, input) ≡ (n, rest) = ok_injective (rw small at h) in
      subst (λ t. length t ≤ length input) (ap (λ (q : ℕ × Bytes). q.1) same) (omega arith)
  | inr x ↦ elim (Bool-cases (a == 24)) [
    | inl one ↦ wide_shrinks 1 23 n input rest (rw (x, one) at h)
    | inr y ↦ elim (Bool-cases (a == 25)) [
      | inl two ↦ wide_shrinks 2 255 n input rest (rw (x, y, two) at h)
      | inr z ↦ elim (Bool-cases (a == 26)) [
        | inl four ↦ wide_shrinks 4 65535 n input rest (rw (x, y, z, four) at h)
        | inr w ↦ elim (Bool-cases (a == 27)) [
          | inl eight ↦ wide_shrinks 8 4294967295 n input rest (rw (x, y, z, w, eight) at h)
          | inr v ↦ absurd (cc (rw (x, y, z, w, v) at h))
        ]
      ]
    ]
  ]
]

container_shrinks :
    (a m n : ℕ) (input rest : Bytes)
    → container_length a m input ≡ ok (n, rest)
    → length rest ≤ length input
unfolding container_length
container_shrinks a m n input rest h =
    let ((k, after), found, h1) = >>=-eq-ok (argument a input) _ h in
    let (_, same) = >>-eq-ok (guard (not (ltb m k)) limit_exceeded) _ h1 in
    argument_shrinks a n input rest (found ∙ same)

byte_shrinks :
    (input rest : Bytes) (b : ℕ)
    → preflight_byte input ≡ ok (b, rest)
    → length rest + 1 ≡ length input
byte_shrinks [] rest b h = absurd (cc h)
byte_shrinks (x ∷ xs) rest b h =
    let same : xs ≡ rest = ap (λ (q : ℕ × Bytes). q.1) (ok_injective h) in
    subst (λ (t : Bytes). length t + 1 ≡ suc (length xs)) same (omega arith)

counted-eq-ok :
    (s t : CborPreflight)
    → counted s ≡ ok t
    → (t.input ≡ s.input) × (t.items ≡ s.items + 1) × (s.items + 1 ≤ 32768)
unfolding counted
counted-eq-ok s t h =
    let (few, same) = >>-eq-ok (guard (not (ltb 32768 (s.items + 1))) limit_exceeded) _ h in
    let f = guard-eq-ok (not (ltb 32768 (s.items + 1))) limit_exceeded few in
    (
      sym (ap (λ (q : CborPreflight). q.input) (ok_injective same)),
      sym (ap (λ (q : CborPreflight). q.items) (ok_injective same)),
      ground arith,
    )

-- What scans one value makes progress.
abbrev Advances : (CborPreflight → Scan CborPreflight) → Type 0
Advances k = (s t : CborPreflight) → k s ≡ ok t → Progress s t

repeat-Progress :
    (k : CborPreflight → Scan CborPreflight) (n : ℕ) → Advances k → Advances (repeat k n)
repeat-Progress k zero p s t h = subst (λ u. Progress s u) (ok_injective h) (Progress-refl s)
repeat-Progress k (suc n) p s t h =
    let (u, first, rest) = >>=-eq-ok (k s) _ h in
    Progress-trans s u t (p s u first) (repeat-Progress k n p u t rest)

entries-Progress :
    (k : CborPreflight → Scan CborPreflight) (n : ℕ) (previous : Option ℕ)
    → Advances k
    → Advances (entries k n previous)
entries-Progress k zero previous p s t h =
    subst (λ u. Progress s u) (ok_injective h) (Progress-refl s)
entries-Progress k (suc n) previous p s t h =
    let ((b, i1), byte, h1) = >>=-eq-ok (preflight_byte s.input) _ h in
    let (_, h2) = >>-eq-ok (guard (b / 32 == 0) noncanonical_encoding) _ h1 in
    let ((key, i2), arg, h3) = >>=-eq-ok (argument (b % 32) i1) _ h2 in
    let (_, h4) = >>-eq-ok (guard (not (not_above previous key)) noncanonical_encoding) _ h3 in
    let (u, one, h5) = >>=-eq-ok (counted (record s { input = i2 })) _ h4 in
    let (v, inner, h6) = >>=-eq-ok (k u) _ h5 in
    let (same_input, next, few) = counted-eq-ok (record s { input = i2 }) u one in
    let size : length u.input ≡ length i2 = ap length same_input in
    let step : Progress s u = record {
      bounded = λ b. omega (arith, next, few);
      counts = omega (arith, next);
      consumes = omega (
        arith,
        next,
        size,
        byte_shrinks s.input i1 b byte,
        argument_shrinks (b % 32) key i1 i2 arg,
      );
    } in
    Progress-trans s u t step
      (Progress-trans u v t (p u v inner) (entries-Progress k n (some key) p v t h6))

by_major-Progress :
    (k : CborPreflight → Scan CborPreflight) (major additional : ℕ)
    → Advances k
    → Advances (by_major k major additional)
unfolding by_major
by_major-Progress k major additional p s t h = elim (Bool-cases (major == 0)) [
  | inl unsigned ↦
      let ((n, rest), found, same) = >>=-eq-ok (argument additional s.input) _ (rw unsigned at h) in
      subst (λ u. Progress s u) (ok_injective same)
        (shrunk s rest (argument_shrinks additional n s.input rest found))
  | inr a ↦ elim (Bool-cases (major == 2)) [
    | inl bytes ↦
        let ((n, rest), found, h1) =
          >>=-eq-ok (argument additional s.input) _ (rw (a, bytes) at h) in
        let (_, h2) =
          >>-eq-ok (guard (not (ltb native_receive_storage_max_bytes n)) limit_exceeded) _ h1 in
        let ((xs, after), slice, same) = >>=-eq-ok (take_slice n rest) _ h2 in
        subst (λ u. Progress s u) (ok_injective same)
          (shrunk s after (
            omega (
              arith,
              slice_shrinks n rest xs after slice,
              argument_shrinks additional n s.input rest found,
            )))
    | inr b ↦ elim (Bool-cases (major == 4)) [
      | inl array ↦
          let ((n, rest), found, h1) =
            >>=-eq-ok (container_length additional 4096 s.input) _ (rw (a, b, array) at h) in
          Progress-trans s (record s { input = rest }) t
            (shrunk s rest (container_shrinks additional 4096 n s.input rest found))
            (repeat-Progress k n p _ t h1)
      | inr c ↦ elim (Bool-cases (major == 5)) [
        | inl map ↦
            let ((n, rest), found, h1) =
              >>=-eq-ok (container_length additional 32 s.input) _ (rw (a, b, c, map) at h) in
            Progress-trans s (record s { input = rest }) t
              (shrunk s rest (container_shrinks additional 32 n s.input rest found))
              (entries-Progress k n none p _ t h1)
        | inr d ↦ elim (Bool-cases (major == 7 && (leb 20 additional && leb additional 22))) [
          | inl simple ↦
              subst (λ u. Progress s u) (ok_injective (rw (a, b, c, d, simple) at h))
                (Progress-refl s)
          | inr e ↦ absurd (cc (rw (a, b, c, d, e) at h))
        ]
      ]
    ]
  ]
]

-- A value that is scanned, with any number of levels left, leaves the count of items at 32,768 at most
-- if it was, does not lower it, and consumes a byte at least for each item that it counts.
pub value-Progress : (levels : ℕ) (s t : CborPreflight) → value levels s ≡ ok t → Progress s t
unfolding value
value-Progress zero s t h = absurd (cc h)
value-Progress (suc levels) s t h =
    let (one, count, h1) = >>=-eq-ok (counted s) _ h in
    let ((b, rest), byte, h2) = >>=-eq-ok (preflight_byte one.input) _ h1 in
    let (same_input, next, few) = counted-eq-ok s one count in
    let size : length one.input ≡ length s.input = ap length same_input in
    let step : Progress s (record one { input = rest }) = record {
      bounded = λ bound. omega (arith, next, few);
      counts = omega (arith, next);
      consumes = omega (arith, next, size, byte_shrinks one.input rest b byte);
    } in
    Progress-trans s (record one { input = rest }) t step
      (by_major-Progress (value levels) (b / 32) (b % 32) (value-Progress levels) _ t h2)
