-- ===== src/Account/Cursor.antt =====
-- The `Cursor` of rust/src/api/account_envelope/codec.rs. A cursor is what remains of its input: a
-- position in an input in memory does not overflow. A method on it gives its result and the cursor.
pub mod Laws
pub mod Reads
pub mod Steps
use openmls_dart.Prelude.{
  ℕ, zero, suc, ◌≡◌, ◌≤◌, refl, ap, sym, ◌∙◌, Bool, Option, none, some, List, [], ◌∷◌, ◌++◌, length,
  take, drop, Bytes, leb, ◌==◌, arith, from_be_bytes, to_be_bytes, Result, ok, err, guard,
  if◌then◌else◌, length-append, take-append, drop-append, take-append-drop, length-to_be_bytes,
  Result-split, inl, inr,
}
use openmls_dart.Account.Types.{
  AccountEnvelopeErrorCodeV1, AccountEnvelopeResult, non_canonical_encoding, hpke_kem_id,
  hpke_kdf_id, hpke_aead_id, signature_scheme_id,
}

abbrev pub Reader : Type 0 → Type 0
Reader A = Bytes → AccountEnvelopeResult (A × Bytes)

abbrev pub continue :
    {A B : Type 0}
    → AccountEnvelopeResult (A × Bytes)
    → (A → Reader B)
    → AccountEnvelopeResult (B × Bytes)
continue (ok (a, rest)) f = f a rest
continue (err e) f = err e

infixl 5 ◌>>=◌ ◌>>◌
abbrev pub ◌>>=◌ : {A B : Type 0} → Reader A → (A → Reader B) → Reader B
◌>>=◌ m f input = continue (m input) f

abbrev pub ◌>>◌ : {B : Type 0} → Reader (Unit {0}) → Reader B → Reader B
m >> n = m >>= λ _. n

abbrev pub pure : {A : Type 0} → A → Reader A
pure a input = ok (a, input)

abbrev pub lifted :
    {A : Type 0} → AccountEnvelopeResult A → Bytes → AccountEnvelopeResult (A × Bytes)
lifted (ok a) input = ok (a, input)
lifted (err e) input = err e

-- A check on the way, which does not move the cursor.
abbrev pub lift : {A : Type 0} → AccountEnvelopeResult A → Reader A
lift r input = lifted r input

abbrev pub check : Bool → AccountEnvelopeErrorCodeV1 → Reader (Unit {0})
check b e = lift (guard b e)

unfoldable pub read_array : ℕ → Reader Bytes
read_array n input =
    if leb n (length input) then ok (take n input, drop n input) else err non_canonical_encoding

unfoldable pub read_u8 : Reader ℕ
read_u8 = do bytes ← read_array 1; pure (from_be_bytes bytes)

unfoldable pub read_u16 : Reader ℕ
read_u16 = do bytes ← read_array 2; pure (from_be_bytes bytes)

unfoldable pub read_u64 : Reader ℕ
read_u64 = do bytes ← read_array 8; pure (from_be_bytes bytes)

-- The cursor itself, for `is_finished`.
abbrev pub remaining : Reader Bytes
remaining input = ok (input, input)

unfoldable pub is_finished : Bytes → Bool
is_finished input = length input == 0

-- The two bundles read the four algorithm numbers in one way; each stops at the first that is wrong.
unfoldable pub read_suite : AccountEnvelopeErrorCodeV1 → Reader (Unit {0})
read_suite e = do
  kem ← read_u16
  check (kem == hpke_kem_id) e
  kdf ← read_u16
  check (kdf == hpke_kdf_id) e
  aead ← read_u16
  check (aead == hpke_aead_id) e
  scheme ← read_u16
  check (scheme == signature_scheme_id) e

-- The four algorithm numbers, as both encoders write them.
abbrev pub suite_bytes : Bytes
suite_bytes =
    to_be_bytes 2 hpke_kem_id
    ++ (to_be_bytes 2 hpke_kdf_id
        ++ (to_be_bytes 2 hpke_aead_id ++ to_be_bytes 2 signature_scheme_id))

-- The `match` on the byte before an optional array.
unfoldable pub read_optional : ℕ → AccountEnvelopeErrorCodeV1 → ℕ → Reader (Option Bytes)
read_optional n e flag =
    if flag == 0
    then pure none
    else if flag == 1
    then (do bytes ← read_array n; pure (some bytes))
    else lift (err e)

-- An optional array with the byte before it.
abbrev pub optional_bytes : Option Bytes → Bytes
optional_bytes none = 0 ∷ []
optional_bytes (some bytes) = 1 ∷ bytes
