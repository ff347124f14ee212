-- ===== src/Receive/Preflight/Argument.antt =====
-- The argument of a CBOR head in rust/src/native_receive_v1.rs: only its shortest form is read.
use mathlib.Core.Path.{subst}
use openmls_dart.Prelude.{
  ℕ, ◌^◌, ◌<◌, ◌≡◌, ◌↔◌, inl, inr, ap, sym, ◌∙◌, true, not, ◌++◌, length, take, drop, All, All-take,
  IsByte, Bytes, length-append, length-take, take-append-drop, to_be_bytes, from_be_bytes,
  from_be_bytes-lt, length-to_be_bytes, from-to_be_bytes, to-from_be_bytes, ltb, leb, ◌==◌, ==_iff,
  arith, ok, guard, guard-true, guard-eq-ok, Bool-cases, >>=-eq-ok, >>-eq-ok, ok_injective,
  if◌then◌else◌,
}
use openmls_dart.Receive.Frame.{noncanonical_encoding}
use openmls_dart.Account.Invitation.Slices.{take_exact, drop_over}
use openmls_dart.Receive.Preflight.{take_slice, wide_argument, argument}

-- The bytes that a number takes after the first byte, and what the first byte says of it.
abbrev pub width_of : ℕ → ℕ
width_of n =
    if ltb n 24
    then 0
    else if ltb n 256
    then 1
    else if ltb n 65536
    then 2
    else if ltb n 4294967296
    then 4
    else 8

abbrev pub additional_of : ℕ → ℕ
additional_of n =
    if ltb n 24
    then n
    else if ltb n 256
    then 24
    else if ltb n 65536
    then 25
    else if ltb n 4294967296
    then 26
    else 27

-- The shortest form of a number.
abbrev pub shortest : ℕ → Bytes
shortest n = to_be_bytes (width_of n) n

take_slice-append : (w : ℕ) (xs ys : Bytes) → length xs ≡ w → take_slice w (xs ++ ys) ≡ ok (xs, ys)
unfolding take_slice
take_slice-append w xs ys h =
    let enough : leb w (length (xs ++ ys)) ≡ true = rw (length-append xs ys) (ground (arith, h)) in
    rw (enough, take_exact w xs ys h, drop_over w 0 w xs ys h (omega arith))

wide_argument-append :
    (w bound n : ℕ) (rest : Bytes)
    → n < 256 ^ w
    → bound < n
    → wide_argument w bound (to_be_bytes w n ++ rest) ≡ ok (n, rest)
unfolding wide_argument
wide_argument-append w bound n rest fits above = rw (
  take_slice-append w (to_be_bytes w n) rest (length-to_be_bytes w n),
  from-to_be_bytes w n fits,
  guard-true (not (leb n bound)) noncanonical_encoding (ground (arith, above)),
)

pub take_slice-eq-ok :
    (w : ℕ) (input xs rest : Bytes)
    → take_slice w input ≡ ok (xs, rest)
    → (input ≡ xs ++ rest) × (length xs ≡ w) × (xs ≡ take w input)
unfolding take_slice
take_slice-eq-ok w input xs rest h = elim (Bool-cases (leb w (length input))) [
  | inr short ↦ absurd (cc (rw short at h))
  | inl enough ↦
      let same : (take w input, drop w input) ≡ (xs, rest) = ok_injective (rw enough at h) in
      let first : take w input ≡ xs = ap (λ (q : Bytes × Bytes). q.0) same in
      let second : drop w input ≡ rest = ap (λ (q : Bytes × Bytes). q.1) same in
      (
        sym (take-append-drop w input)
            ∙ (ap (λ t. t ++ drop w input) first ∙ ap (λ t. xs ++ t) second),
        ap length (sym first) ∙ length-take w input (ground arith),
        sym first,
      )
]

-- A number that was read in `w` bytes.
wide_argument-eq-ok :
    (w bound n : ℕ) (input rest : Bytes)
    → All IsByte input
    → wide_argument w bound input ≡ ok (n, rest)
    → (bound < n) × (n < 256 ^ w) × (input ≡ to_be_bytes w n ++ rest)
unfolding wide_argument
wide_argument-eq-ok w bound n input rest bytes h =
    let ((xs, after), found, h1) = >>=-eq-ok (take_slice w input) _ h in
    let (above, same) =
      >>-eq-ok (guard (not (leb (from_be_bytes xs) bound)) noncanonical_encoding) _ h1 in
    let (joined, size, taken) = take_slice-eq-ok w input xs after found in
    let xs_bytes : All IsByte xs = subst (All IsByte) (sym taken) (All-take IsByte w input bytes) in
    let number : from_be_bytes xs ≡ n = ap (λ (q : ℕ × Bytes). q.0) (ok_injective same) in
    let rest_same : after ≡ rest = ap (λ (q : ℕ × Bytes). q.1) (ok_injective same) in
    let a = guard-eq-ok (not (leb (from_be_bytes xs) bound)) noncanonical_encoding above in
    let small : from_be_bytes xs < 256 ^ length xs = from_be_bytes-lt xs xs_bytes in
    let back : to_be_bytes w n ≡ xs =
      ap (λ (v : ℕ). to_be_bytes w v) (sym number)
      ∙ (ap (λ (k : ℕ). to_be_bytes k (from_be_bytes xs)) (sym size)
          ∙ to-from_be_bytes xs xs_bytes) in
    (
      ground arith,
      subst (λ (v : ℕ). v < 256 ^ w) number
          (subst (λ (k : ℕ). from_be_bytes xs < 256 ^ k) size small),
      joined ∙ (ap (λ t. t ++ after) (sym back) ∙ ap (λ t. to_be_bytes w n ++ t) rest_same),
    )

-- The form of a number between two bounds.
small_form : (n : ℕ) → n < 24 → (n ≡ additional_of n) × (width_of n ≡ 0)
small_form n h = (ground arith, ground arith)

form_1 : (n : ℕ) → 23 < n → n < 256 → (24 ≡ additional_of n) × (width_of n ≡ 1)
form_1 n h g = (ground arith, ground arith)

form_2 : (n : ℕ) → 255 < n → n < 65536 → (25 ≡ additional_of n) × (width_of n ≡ 2)
form_2 n h g = (ground arith, ground arith)

form_4 : (n : ℕ) → 65535 < n → n < 4294967296 → (26 ≡ additional_of n) × (width_of n ≡ 4)
form_4 n h g = (ground arith, ground arith)

form_8 : (n : ℕ) → 4294967295 < n → (27 ≡ additional_of n) × (width_of n ≡ 8)
form_8 n h = (ground arith, ground arith)

abbrev IsShortest : ℕ → ℕ → Bytes → Bytes → Type 0
IsShortest additional n input rest =
    (n < 2 ^ 64) × (additional ≡ additional_of n) × (input ≡ shortest n ++ rest)

wide-IsShortest :
    (additional w n : ℕ) (input rest : Bytes)
    → n < 2 ^ 64
    → (additional ≡ additional_of n) × (width_of n ≡ w)
    → input ≡ to_be_bytes w n ++ rest
    → IsShortest additional n input rest
wide-IsShortest additional w n input rest fits form joined =
    (fits, form.0, joined ∙ ap (λ (k : ℕ). to_be_bytes k n ++ rest) (sym form.1))

is_code :
    (additional code n w : ℕ)
    → (additional == code) ≡ true
    → (code ≡ additional_of n) × (width_of n ≡ w)
    → (additional ≡ additional_of n) × (width_of n ≡ w)
is_code additional code n w h form = ((==_iff additional code).0 h ∙ form.0, form.1)

argument-IsShortest :
    (additional n : ℕ) (input rest : Bytes)
    → All IsByte input
    → argument additional input ≡ ok (n, rest)
    → IsShortest additional n input rest
unfolding argument to_be_bytes
argument-IsShortest additional n input rest bytes h = elim (Bool-cases (leb additional 23)) [
  | inl small ↦
      let same : (additional, input) ≡ (n, rest) = ok_injective (rw small at h) in
      let e : additional ≡ n = ap (λ (q : ℕ × Bytes). q.0) same in
      let r : input ≡ rest = ap (λ (q : ℕ × Bytes). q.1) same in
      let low : n < 24 = ground arith in
      let (code, width) = small_form n low in
      (omega (arith, low), e ∙ code, r ∙ ap (λ (k : ℕ). to_be_bytes k n ++ rest) (sym width))
  | inr large ↦ elim (Bool-cases (additional == 24)) [
    | inl one ↦
        let (a, f, j) = wide_argument-eq-ok 1 23 n input rest bytes (rw (large, one) at h) in
        wide-IsShortest additional 1 n input rest (omega (arith, f))
          (is_code additional 24 n 1 one (form_1 n a f)) j
    | inr not_one ↦ elim (Bool-cases (additional == 25)) [
      | inl two ↦
          let (a, f, j) =
            wide_argument-eq-ok 2 255 n input rest bytes (rw (large, not_one, two) at h) in
          wide-IsShortest additional 2 n input rest (omega (arith, f))
            (is_code additional 25 n 2 two (form_2 n a f)) j
      | inr not_two ↦ elim (Bool-cases (additional == 26)) [
        | inl four ↦
            let (a, f, j) =
              wide_argument-eq-ok 4 65535 n input rest bytes
                (rw (large, not_one, not_two, four) at h) in
            wide-IsShortest additional 4 n input rest (omega (arith, f))
              (is_code additional 26 n 4 four (form_4 n a f)) j
        | inr not_four ↦ elim (Bool-cases (additional == 27)) [
          | inl eight ↦
              let (a, f, j) =
                wide_argument-eq-ok 8 4294967295 n input rest bytes
                  (rw (large, not_one, not_two, not_four, eight) at h) in
              wide-IsShortest additional 8 n input rest (omega (arith, f))
                (is_code additional 27 n 8 eight (form_8 n a)) j
          | inr none_of_them ↦
              absurd (cc (rw (large, not_one, not_two, not_four, none_of_them) at h))
        ]
      ]
    ]
  ]
]

shortest-argument :
    (n : ℕ) (rest : Bytes)
    → n < 2 ^ 64
    → argument (additional_of n) (shortest n ++ rest) ≡ ok (n, rest)
unfolding argument to_be_bytes
shortest-argument n rest fits = elim (Bool-cases (ltb n 24)) [
  | inl low ↦ let small : leb n 23 ≡ true = ground arith in rw (low, small)
  | inr a ↦ elim (Bool-cases (ltb n 256)) [
    | inl one ↦ rw (a, one) (wide_argument-append 1 23 n rest (ground arith) (ground arith))
    | inr b ↦ elim (Bool-cases (ltb n 65536)) [
      | inl two ↦ rw (a, b, two) (wide_argument-append 2 255 n rest (ground arith) (ground arith))
      | inr c ↦ elim (Bool-cases (ltb n 4294967296)) [
        | inl four ↦
            rw (a, b, c, four) (wide_argument-append 4 65535 n rest (ground arith) (ground arith))
        | inr d ↦
            rw (a, b, c, d) (wide_argument-append 8 4294967295 n rest (ground arith) (ground arith))
      ]
    ]
  ]
]

-- An argument is read as a number exactly if that number is below 2^64 and the input begins with its
-- shortest form, which the bits of the first byte announce: 0, 1, 2, 4 or 8 bytes, as few as hold it.
pub argument_iff :
    (additional n : ℕ) (input rest : Bytes)
    → All IsByte input
    → (argument additional input ≡ ok (n, rest))
      ↔ ((n < 2 ^ 64) × (additional ≡ additional_of n) × (input ≡ shortest n ++ rest))
argument_iff additional n input rest bytes = (
  argument-IsShortest additional n input rest bytes,
  λ (fits, code, joined). rw (code, joined) (shortest-argument n rest fits),
)
