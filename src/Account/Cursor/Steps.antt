-- ===== src/Account/Cursor/Steps.antt =====
-- Taking a successful run of a reader of rust/src/api/account_envelope/codec.rs apart.
use openmls_dart.Prelude.{
  ℕ, ◌≡◌, refl, ◌∙◌, Bool, true, false, Option, [], ◌∷◌, length, Bytes, to_be_bytes, ok, err, All,
  IsByte,
}
use openmls_dart.Account.Types.{AccountEnvelopeErrorCodeV1, AccountEnvelopeResult}
use openmls_dart.Account.Cursor.{
  Reader, ◌>>=◌, lift, check, read_array, read_u8, read_u64, read_suite, read_optional, suite_bytes,
  optional_bytes,
}
use openmls_dart.Account.Cursor.Laws.{HasLength}
use openmls_dart.Account.Cursor.Reads.{
  Reads, bind-eq-ok, read_array-Reads, read_u8-Reads, read_u64-Reads, read_suite-Reads,
  read_optional-Reads,
}

module _ {B : Type 0} {b : B} {rest : Bytes} {C : Type 0} (input : Bytes) where
  pub lift_step :
      {A : Type 0} (r : AccountEnvelopeResult A) (f : A → Reader B)
      → (lift r >>= f) input ≡ ok (b, rest)
      → ((a : A) → r ≡ ok a → f a input ≡ ok (b, rest) → C)
      → C
  lift_step (ok a) f h k = k a refl h
  lift_step (err e) f h k = absurd (cc h)

  pub check_step :
      (c : Bool) (e : AccountEnvelopeErrorCodeV1) (f : Unit {0} → Reader B)
      → (check c e >>= f) input ≡ ok (b, rest)
      → (c ≡ true → f tt input ≡ ok (b, rest) → C)
      → C
  check_step true e f h k = k refl h
  check_step false e f h k = absurd (cc h)

  module _ (bytes : All IsByte input) where
    pub array_step :
        (n : ℕ) (f : Bytes → Reader B)
        → (read_array n >>= f) input ≡ ok (b, rest)
        → ((xs mid : Bytes) → length xs ≡ n → Reads input xs mid → f xs mid ≡ ok (b, rest) → C)
        → C
    array_step n f h k =
        let (xs, mid, r, g) = bind-eq-ok (read_array n) f input h in
        let (reads, l) = read_array-Reads n input bytes r in k xs mid l reads g

    pub u8_step :
        (f : ℕ → Reader B)
        → (read_u8 >>= f) input ≡ ok (b, rest)
        → ((x : ℕ) (mid : Bytes) → Reads input (x ∷ []) mid → f x mid ≡ ok (b, rest) → C)
        → C
    u8_step f h k =
        let (x, mid, r, g) = bind-eq-ok read_u8 f input h in k x mid (read_u8-Reads input bytes r) g

    pub u64_step :
        (f : ℕ → Reader B)
        → (read_u64 >>= f) input ≡ ok (b, rest)
        → ((n : ℕ) (mid : Bytes) → Reads input (to_be_bytes 8 n) mid → f n mid ≡ ok (b, rest) → C)
        → C
    u64_step f h k =
        let (n, mid, r, g) = bind-eq-ok read_u64 f input h in
        k n mid (read_u64-Reads input bytes r) g

    pub suite_step :
        (e : AccountEnvelopeErrorCodeV1) (f : Unit {0} → Reader B)
        → (read_suite e >>= f) input ≡ ok (b, rest)
        → ((mid : Bytes) → Reads input suite_bytes mid → f tt mid ≡ ok (b, rest) → C)
        → C
    suite_step e f h k =
        let (_, mid, r, g) = bind-eq-ok (read_suite e) f input h in
        k mid (read_suite-Reads e input bytes r) g

    pub optional_step :
        (n : ℕ) (e : AccountEnvelopeErrorCodeV1) (f : Option Bytes → Reader B)
        → (read_u8 >>= λ flag. read_optional n e flag >>= f) input ≡ ok (b, rest)
        → ((found : Option Bytes) (mid : Bytes)
            → HasLength n found
            → Reads input (optional_bytes found) mid
            → f found mid ≡ ok (b, rest)
            → C)
        → C
    optional_step n e f h k =
        u8_step (λ flag. read_optional n e flag >>= f) h
          (λ flag mid r g.
            let (found, last, s, i) = bind-eq-ok (read_optional n e flag) f mid g in
            let (reads, l) = read_optional-Reads n e flag mid (rw r.0 at bytes) s in
            k found last l (r.0 ∙ reads.0, reads.1) i)
