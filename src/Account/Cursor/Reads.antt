-- ===== src/Account/Cursor/Reads.antt =====
-- What a successful reading says of its input: the cursor of
-- rust/src/api/account_envelope/codec.rs.
use openmls_dart.Prelude.{
  ℕ, ◌≡◌, refl, ap, sym, ◌∙◌, Bool, true, Option, none, some, [], ◌∷◌, ◌++◌, length, Bytes, leb,
  ◌==◌, arith, from_be_bytes, to_be_bytes, to-from_be_bytes, append_assoc, append-nil, ok, err,
  guard, All, All-of_append, IsByte, take-append-drop, length-take, Bool-cases, Result-split, inl,
  inr, ok_injective, guard-eq-ok, ==_iff,
}
use openmls_dart.Account.Types.{
  AccountEnvelopeErrorCodeV1, AccountEnvelopeResult, hpke_kem_id, hpke_kdf_id, hpke_aead_id,
  signature_scheme_id,
}
use openmls_dart.Account.Cursor.{
  Reader, pure, ◌>>=◌, lift, check, read_array, read_u8, read_u16, read_u64, read_suite,
  read_optional, suite_bytes, optional_bytes, is_finished,
}
use openmls_dart.Account.Cursor.Laws.{HasLength, one_fits, single}

-- A reading that succeeds in two steps.
pub bind-eq-ok :
    {A B : Type 0} (m : Reader A) (f : A → Reader B) (input : Bytes) {b : B} {rest : Bytes}
    → (m >>= f) input ≡ ok (b, rest)
    → (a : A) × (mid : Bytes) × (m input ≡ ok (a, mid)) × (f a mid ≡ ok (b, rest))
bind-eq-ok m f input h = elim (Result-split (m input)) [
  | inl ((a, mid), e) ↦ (a, mid, e, rw e at h)
  | inr (e, bad) ↦ absurd (cc (rw bad at h))
]

pub lift-eq-ok :
    {A : Type 0} (r : AccountEnvelopeResult A) (input : Bytes) {a : A} {rest : Bytes}
    → lift r input ≡ ok (a, rest)
    → (r ≡ ok a) × (rest ≡ input)
lift-eq-ok (ok x) input h = (
  ap (λ r. elim r [ ok p ↦ ok p.0 | err e ↦ err e ]) h,
  ap (λ r. elim r [ ok p ↦ p.1 | err e ↦ input ]) (sym h),
)
lift-eq-ok (err e) input h = absurd (cc h)

-- What was read, and what remains, make up the input.
pub read_array-eq-ok :
    (n : ℕ) (input : Bytes) {xs rest : Bytes}
    → read_array n input ≡ ok (xs, rest)
    → (input ≡ xs ++ rest) × (length xs ≡ n)
unfolding read_array
read_array-eq-ok n input {xs} {rest} h = elim (Bool-cases (leb n (length input))) [
  | inr short ↦ absurd (cc (rw short at h))
  | inl fits ↦
      let e = ok_injective (rw fits at h) in
      rw (← ap (λ p. p.0) e, ← ap (λ p. p.1) e)
        (sym (take-append-drop n input), length-take n input (ground arith))
]

pub read_u8-eq-ok :
    (input : Bytes) {b : ℕ} {rest : Bytes} → read_u8 input ≡ ok (b, rest) → input ≡ b ∷ rest
unfolding read_u8 read_array from_be_bytes
read_u8-eq-ok [] h = absurd (cc h)
read_u8-eq-ok (x ∷ input) h =
    let e = ok_injective (rw (one_fits input, single x) at h) in
    rw (← ap (λ p. p.0) e, ← ap (λ p. p.1) e) refl

-- Of bytes: what was read makes up the input with what remains, which is bytes too.
abbrev pub Reads : Bytes → Bytes → Bytes → Type 0
Reads input xs rest = (input ≡ xs ++ rest) × All IsByte rest

-- One reading after another.
pub Reads-then :
    (input xs mid ys rest : Bytes)
    → Reads input xs mid
    → Reads mid ys rest
    → Reads input (xs ++ ys) rest
Reads-then input xs mid ys rest (e, b) (f, c) =
    (e ∙ ap (λ t. xs ++ t) f ∙ sym (append_assoc xs ys rest), c)

-- The same reading, of bytes and up to a rest that are the same.
pub Reads-same :
    (input xs ys rest mid : Bytes) → xs ≡ ys → rest ≡ mid → Reads input xs mid → Reads input ys rest
Reads-same input xs ys rest mid same stay r = rw (← same, stay) r

pub read_array-Reads :
    (n : ℕ) (input : Bytes) {xs rest : Bytes}
    → All IsByte input
    → read_array n input ≡ ok (xs, rest)
    → Reads input xs rest × (length xs ≡ n)
read_array-Reads n input {xs} {rest} b h =
    let (e, l) = read_array-eq-ok n input h in
    ((e, (All-of_append IsByte xs rest (rw e at b)).1), l)

pub read_u8-Reads :
    (input : Bytes) {x : ℕ} {rest : Bytes}
    → All IsByte input
    → read_u8 input ≡ ok (x, rest)
    → Reads input (x ∷ []) rest
read_u8-Reads input b h = let e = read_u8-eq-ok input h in (e, (rw e at b).1)

word-Reads :
    (w : ℕ) (input xs rest : Bytes)
    → All IsByte input
    → read_array w input ≡ ok (xs, rest)
    → Reads input (to_be_bytes w (from_be_bytes xs)) rest
word-Reads w input xs rest b h =
    let ((e, r), l) = read_array-Reads w input b h in
    (
      e
          ∙ ap (λ ys. ys ++ rest)
              (sym (rw l at (to-from_be_bytes xs (All-of_append IsByte xs rest (rw e at b)).0))),
      r,
    )

pub read_u16-Reads :
    (input : Bytes) {n : ℕ} {rest : Bytes}
    → All IsByte input
    → read_u16 input ≡ ok (n, rest)
    → Reads input (to_be_bytes 2 n) rest
unfolding read_u16
read_u16-Reads input {n} {rest} b h =
    let (xs, mid, e, f) = bind-eq-ok (read_array 2) _ input h in
    rw (← ap (λ p. p.0) (ok_injective f), ← ap (λ p. p.1) (ok_injective f))
      (word-Reads 2 input xs mid b e)

pub read_u64-Reads :
    (input : Bytes) {n : ℕ} {rest : Bytes}
    → All IsByte input
    → read_u64 input ≡ ok (n, rest)
    → Reads input (to_be_bytes 8 n) rest
unfolding read_u64
read_u64-Reads input {n} {rest} b h =
    let (xs, mid, e, f) = bind-eq-ok (read_array 8) _ input h in
    rw (← ap (λ p. p.0) (ok_injective f), ← ap (λ p. p.1) (ok_injective f))
      (word-Reads 8 input xs mid b e)

pub check-eq-ok :
    (c : Bool) (e : AccountEnvelopeErrorCodeV1) (input : Bytes) {rest : Bytes}
    → check c e input ≡ ok (tt, rest)
    → (c ≡ true) × (rest ≡ input)
check-eq-ok c e input h = let (g, r) = lift-eq-ok (guard c e) input h in (guard-eq-ok c e g, r)

-- One algorithm number: it is read and compared.
number-Reads :
    (k : ℕ) (e : AccountEnvelopeErrorCodeV1) (f : Reader (Unit {0})) (input : Bytes) {rest : Bytes}
    → All IsByte input
    → (read_u16 >>= λ n. check (n == k) e >>= λ _. f) input ≡ ok (tt, rest)
    → (mid : Bytes) × Reads input (to_be_bytes 2 k) mid × (f mid ≡ ok (tt, rest))
number-Reads k e f input b h =
    let (n, mid, r, g) = bind-eq-ok read_u16 _ input h in
    let (_, mid2, c, last) = bind-eq-ok (check (n == k) e) (λ _. f) mid g in
    let (same, stay) = check-eq-ok (n == k) e mid c in
    (mid, rw (← (==_iff n k).0 same) (read_u16-Reads input b r), rw (← stay) last)

pub read_suite-Reads :
    (e : AccountEnvelopeErrorCodeV1) (input : Bytes) {rest : Bytes}
    → All IsByte input
    → read_suite e input ≡ ok (tt, rest)
    → Reads input suite_bytes rest
unfolding read_suite
read_suite-Reads e input {rest} b h =
    let (m1, (e1, b1), h1) = number-Reads hpke_kem_id e _ input b h in
    let (m2, (e2, b2), h2) = number-Reads hpke_kdf_id e _ m1 b1 h1 in
    let (m3, (e3, b3), h3) = number-Reads hpke_aead_id e _ m2 b2 h2 in
    let (n, m4, r, g) = bind-eq-ok read_u16 _ m3 h3 in
    let (same, stay) = check-eq-ok (n == signature_scheme_id) e m4 g in
    Reads-then input _ m1 _ rest (e1, b1)
      (Reads-then m1 _ m2 _ rest (e2, b2)
        (Reads-then m2 _ m3 _ rest (e3, b3)
          (Reads-same m3 _ _ rest m4 (ap (to_be_bytes 2) ((==_iff n signature_scheme_id).0 same))
            stay (read_u16-Reads m3 b3 r))))

none-Reads :
    (n flag : ℕ) (input : Bytes) {found : Option Bytes} {rest : Bytes}
    → All IsByte input
    → flag ≡ 0
    → pure {A = Option Bytes} none input ≡ ok (found, rest)
    → Reads (flag ∷ input) (optional_bytes found) rest × HasLength n found
none-Reads n flag input b z h =
    rw (← ap (λ p. p.0) (ok_injective h), ← ap (λ p. p.1) (ok_injective h), z) ((refl, b), tt)

some-Reads :
    (n flag : ℕ) (input : Bytes) {found : Option Bytes} {rest : Bytes}
    → All IsByte input
    → flag ≡ 1
    → (read_array n >>= λ bytes. pure (some bytes)) input ≡ ok (found, rest)
    → Reads (flag ∷ input) (optional_bytes found) rest × HasLength n found
some-Reads n flag input b o h =
    let (xs, mid, r, f) = bind-eq-ok (read_array n) _ input h in
    let ((e, c), l) = read_array-Reads n input b r in
    rw (← ap (λ p. p.0) (ok_injective f), ← ap (λ p. p.1) (ok_injective f), o)
      ((ap (λ t. 1 ∷ t) e, c), l)

pub read_optional-Reads :
    (n : ℕ) (e : AccountEnvelopeErrorCodeV1) (flag : ℕ) (input : Bytes) {found : Option Bytes}
    {rest : Bytes}
    → All IsByte (flag ∷ input)
    → read_optional n e flag input ≡ ok (found, rest)
    → Reads (flag ∷ input) (optional_bytes found) rest × HasLength n found
unfolding read_optional
read_optional-Reads n e flag input {found} {rest} b h = elim (Bool-cases (flag == 0)) [
  | inl zero_flag ↦ none-Reads n flag input b.1 ((==_iff flag 0).0 zero_flag) (rw zero_flag at h)
  | inr some_flag ↦ elim (Bool-cases (flag == 1)) [
    | inl one_flag ↦
        some-Reads n flag input b.1 ((==_iff flag 1).0 one_flag) (rw (some_flag, one_flag) at h)
    | inr other ↦ absurd (cc (rw (some_flag, other) at h))
  ]
]

pub nothing_left : (m : Bytes) → is_finished m ≡ true → m ≡ []
unfolding is_finished
nothing_left [] h = refl
nothing_left (x ∷ m) h = absurd (ground arith)

pub whole_input : {input : Bytes} (xs m : Bytes) → m ≡ [] → input ≡ xs ++ m → input ≡ xs
whole_input xs m none_left e = e ∙ ap (λ t. xs ++ t) none_left ∙ append-nil xs
