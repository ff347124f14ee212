-- ===== src/Account/PrivateBundle/RoundTrip.antt =====
-- The private bundle of rust/src/api/account_envelope/codec.rs: its bytes and its fields are one.
use mathlib.Core.Path.{subst}
use openmls_dart.Prelude.{
  ℕ, ◌+◌, ◌<◌, ◌^◌, ◌≡◌, refl, ap, sym, ◌∙◌, Bool, true, false, not, ◌||◌, Option, none, some, [],
  ◌∷◌, ◌++◌, length, length-append, All, IsByte, Bytes, to_be_bytes, length-to_be_bytes, ltb, ◌==◌,
  is_some, Result, ok, err, guard, map_err, >>-eq-ok, >>=-eq-ok, ==_iff, arith, ok_injective,
}
use openmls_dart.Account.Types.{
  AccountEnvelopeErrorCodeV1, private_bundle_invalid, validate_authority, PrivateBundleStateV1,
  active_full, retired_decrypt_only, state_as_u8, state_from_u8, DecodedPrivateBundleV1,
  AccountEnvelopePrivateBundleAuthorityV1,
}
use openmls_dart.Account.Cursor.{is_finished, suite_bytes, optional_bytes}
use openmls_dart.Account.Cursor.Laws.{
  HasLength, read_array-append, read_u8-cons, read_u64-append, read_suite-append, read_array_whole,
  optional_then,
}
use openmls_dart.Account.Cursor.Reads.{nothing_left, whole_input, Reads-then, Reads-same}
use openmls_dart.Account.Cursor.Steps.{
  u8_step, check_step, lift_step, array_step, u64_step, suite_step, optional_step,
}
use openmls_dart.Account.PrivateBundle.{
  encode_private_bundle, read_private_bundle, decode_private_bundle, all_zero, is_mismatch,
}

-- A bundle that can be stored: its arrays have their lengths, its authority is valid, no public or
-- HPKE key is all zero, and the signature key is there exactly in the active state.
pub record IsBundle (b : DecodedPrivateBundleV1) : Type 0 where
  pub account_length : length b.authority.account_id ≡ 16
  pub root_length : length b.authority.root_installation_id ≡ 16
  pub authority_valid : validate_authority b.authority ≡ ok tt
  pub hpke_private_length : length b.hpke_private_key ≡ 32
  pub hpke_public_length : length b.hpke_public_key ≡ 32
  pub signature_private_length : HasLength 32 b.signature_private_key
  pub signature_public_length : length b.signature_public_key ≡ 32
  pub hpke_private_nonzero : all_zero b.hpke_private_key ≡ false
  pub hpke_public_nonzero : all_zero b.hpke_public_key ≡ false
  pub signature_public_nonzero : all_zero b.signature_public_key ≡ false
  pub state_fits : is_mismatch b.state (is_some b.signature_private_key) ≡ false

state_from_u8-state_as_u8 : (s : PrivateBundleStateV1) → state_from_u8 (state_as_u8 s) ≡ ok s
unfolding state_from_u8 state_as_u8
state_from_u8-state_as_u8 active_full = refl
state_from_u8-state_as_u8 retired_decrypt_only = refl

state_from_u8-eq-ok :
    (v : ℕ) (s : PrivateBundleStateV1) → state_from_u8 v ≡ ok s → state_as_u8 s ≡ v
unfolding state_from_u8 state_as_u8
state_from_u8-eq-ok v active_full h = ground arith
state_from_u8-eq-ok v retired_decrypt_only h = ground arith

-- Valid generations are below 2^53, and so are `u64`.
generations_fit :
    (a : AccountEnvelopePrivateBundleAuthorityV1)
    → validate_authority a ≡ ok tt
    → (a.generation < 2 ^ 64) × (a.root_authority_generation < 2 ^ 64)
unfolding validate_authority
generations_fit a h = ground arith

not_long : (n : ℕ) → (n == 187 || n == 155) ≡ true → not (ltb 256 n) ≡ true
not_long n h = ground arith

read-encode :
    (b : DecodedPrivateBundleV1)
    → IsBundle b
    → read_private_bundle (encode_private_bundle b) ≡ ok (b, [])
unfolding read_private_bundle encode_private_bundle is_finished
read-encode b w =
    let (small, root_small) = generations_fit b.authority w.authority_valid in
    rw
      (
        read_u8-cons 1 _,
        read_u8-cons (state_as_u8 b.state) _,
        state_from_u8-state_as_u8 b.state,
        read_array-append 16 b.authority.account_id _ w.account_length,
        read_u64-append b.authority.generation _ small,
        read_array-append 16 b.authority.root_installation_id _ w.root_length,
        read_u64-append b.authority.root_authority_generation _ root_small,
        w.authority_valid,
        read_suite-append private_bundle_invalid _,
        read_array-append 32 b.hpke_private_key _ w.hpke_private_length,
        read_array-append 32 b.hpke_public_key _ w.hpke_public_length,
      )
      (optional_then 32 private_bundle_invalid b.signature_private_key _ _
          w.signature_private_length
        ∙ rw (
          read_array_whole 32 b.signature_public_key w.signature_public_length,
          w.hpke_private_nonzero,
          w.hpke_public_nonzero,
          w.signature_public_nonzero,
          w.state_fits,
        ))

optional_length :
    (k : Option Bytes)
    → HasLength 32 k
    → (154 + length (optional_bytes k) == 187 || 154 + length (optional_bytes k) == 155) ≡ true
optional_length none h = refl
optional_length (some key) h = rw h refl

length_of_encoded :
    (b : DecodedPrivateBundleV1)
    → IsBundle b
    → length (encode_private_bundle b) ≡ 154 + length (optional_bytes b.signature_private_key)
unfolding encode_private_bundle
length_of_encoded b w =
    rw
      (
        length-append b.authority.account_id _,
        length-append (to_be_bytes 8 b.authority.generation) _,
        length-append b.authority.root_installation_id _,
        length-append (to_be_bytes 8 b.authority.root_authority_generation) _,
        length-append suite_bytes _,
        length-append b.hpke_private_key _,
        length-append b.hpke_public_key _,
        length-append (optional_bytes b.signature_private_key) _,
        w.account_length,
        w.root_length,
        w.hpke_private_length,
        w.hpke_public_length,
        w.signature_public_length,
        length-to_be_bytes 8 b.authority.generation,
        length-to_be_bytes 8 b.authority.root_authority_generation,
      )
      (unfold to_be_bytes in omega arith)

encoded_length :
    (b : DecodedPrivateBundleV1)
    → IsBundle b
    → (length (encode_private_bundle b) == 187 || length (encode_private_bundle b) == 155) ≡ true
encoded_length b w =
    rw (length_of_encoded b w) (optional_length b.signature_private_key w.signature_private_length)

-- A bundle that can be stored is read back from its bytes.
pub decode-encode_private_bundle :
    (b : DecodedPrivateBundleV1)
    → IsBundle b
    → decode_private_bundle (encode_private_bundle b) ≡ ok b
unfolding decode_private_bundle
decode-encode_private_bundle b w = rw (
  encoded_length b w,
  not_long (length (encode_private_bundle b)) (encoded_length b w),
  read-encode b w,
)

all_passed :
    (f a b c d : Bool)
    → not (not f || (a || (b || (c || d)))) ≡ true
    → (f ≡ true) × (a ≡ false) × (b ≡ false) × (c ≡ false) × (d ≡ false)
all_passed f a b c d h = ground arith

valid_of_map_err :
    {a : Unit {0}} (r : Result AccountEnvelopeErrorCodeV1 (Unit {0}))
    → map_err (λ (_ : AccountEnvelopeErrorCodeV1). private_bundle_invalid) r ≡ ok a
    → r ≡ ok tt
valid_of_map_err (ok tt) h = refl
valid_of_map_err (err e) h = absurd (cc h)

abbrev authority_checked : Bytes → ℕ → Bytes → ℕ → Result AccountEnvelopeErrorCodeV1 (Unit {0})
authority_checked account generation root root_generation =
    map_err (λ (_ : AccountEnvelopeErrorCodeV1). private_bundle_invalid)
      (validate_authority (record {
        account_id = account;
        generation = generation;
        root_installation_id = root;
        root_authority_generation = root_generation;
      }))

-- The bytes that are read are the bundle's, and the bundle can be stored.
read-Reads :
    (input : Bytes) {b : DecodedPrivateBundleV1} {rest : Bytes}
    → All IsByte input
    → read_private_bundle input ≡ ok (b, rest)
    → (encode_private_bundle b ≡ input) × IsBundle b
unfolding read_private_bundle encode_private_bundle
read-Reads input {b} {rest} bytes h = u8_step input bytes _ h (λ version m1 r1 h1.
    check_step m1 (version == 1) private_bundle_invalid _ h1 (λ c1 k1.
      u8_step m1 r1.1 _ k1 (λ raw m2 r2 h2. lift_step m2 (state_from_u8 raw) _ h2 (λ state c2 k2.
        array_step m2 r2.1 16 _ k2 (λ account m3 l3 r3 h3.
          u64_step m3 r3.1 _ h3 (λ generation m4 r4 h4.
            array_step m4 r4.1 16 _ h4 (λ root m5 l5 r5 h5.
              u64_step m5 r5.1 _ h5 (λ root_generation m6 r6 h6.
                lift_step m6 (authority_checked account generation root root_generation) _ h6
                  (λ _ c6 k6. suite_step m6 r6.1 private_bundle_invalid _ k6 (λ m7 r7 h7.
                    array_step m7 r7.1 32 _ h7 (λ hpke_private m8 l8 r8 h8.
                      array_step m8 r8.1 32 _ h8 (λ hpke_public m9 l9 r9 h9.
                        optional_step m9 r9.1 32 private_bundle_invalid _ h9 (λ key m10 l10 r10 h10.
                          array_step m10 r10.1 32 _ h10 (λ public m11 l11 r11 h11.
                            check_step m11
                              (not (
                                not (is_finished m11)
                                || (all_zero hpke_private
                                    || (all_zero hpke_public
                                        || (all_zero public || is_mismatch state (is_some key))))))
                              private_bundle_invalid _ h11
                              (λ c12 k12.
                                let (fin, z1, z2, z3, fits) = all_passed _ _ _ _ _ c12 in
                                let after_state : Bytes =
                                  account
                                  ++ (to_be_bytes 8 generation
                                      ++ (root
                                          ++ (to_be_bytes 8 root_generation
                                              ++ (suite_bytes
                                                  ++ (hpke_private
                                                      ++ (hpke_public
                                                          ++ (optional_bytes key ++ public))))))) in
                                let whole =
                                  Reads-then input (1 ∷ []) m1 (state_as_u8 state ∷ after_state) m11
                                    (Reads-same input (version ∷ []) (1 ∷ []) m1 m1
                                      (ap (λ v. v ∷ []) ((==_iff version 1).0 c1)) refl r1)
                                    (Reads-then m1 (state_as_u8 state ∷ []) m2 after_state m11
                                      (Reads-same m1 (raw ∷ []) (state_as_u8 state ∷ []) m2 m2
                                        (ap (λ v. v ∷ []) (sym (state_from_u8-eq-ok raw state c2)))
                                        refl r2)
                                      (Reads-then m2 _ m3 _ m11 r3 (
                                        Reads-then m3 _ m4 _ m11 r4 (
                                          Reads-then m4 _ m5 _ m11 r5 (
                                            Reads-then m5 _ m6 _ m11 r6 (
                                              Reads-then m6 _ m7 _ m11 r7 (
                                                Reads-then m7 _ m8 _ m11 r8 (
                                                  Reads-then m8 _ m9 _ m11 r9
                                                    (Reads-then m9 _ m10 _ m11 r10 r11))))))))) in
                                subst (λ c. (encode_private_bundle c ≡ input) × IsBundle c)
                                  (ap (λ p. p.0) (ok_injective k12))
                                  (
                                    sym (
                                        whole_input (1 ∷ state_as_u8 state ∷ after_state) m11
                                          (nothing_left m11 fin) whole.0),
                                    record {
                                      account_length = l3;
                                      root_length = l5;
                                      authority_valid = valid_of_map_err _ c6;
                                      hpke_private_length = l8;
                                      hpke_public_length = l9;
                                      signature_private_length = l10;
                                      signature_public_length = l11;
                                      hpke_private_nonzero = z1;
                                      hpke_public_nonzero = z2;
                                      signature_public_nonzero = z3;
                                      state_fits = fits;
                                    },
                                  ))))))))))))))))

-- Bytes are read as a bundle only if they are its encoding, and then the bundle can be stored.
pub decode_private_bundle-eq-ok :
    (input : Bytes) (b : DecodedPrivateBundleV1)
    → All IsByte input
    → decode_private_bundle input ≡ ok b
    → (encode_private_bundle b ≡ input) × IsBundle b
unfolding decode_private_bundle
decode_private_bundle-eq-ok input b bytes h =
    let (_, h1) = >>-eq-ok (guard (not (ltb 256 (length input))) private_bundle_invalid) _ h in
    let (_, h2) =
      >>-eq-ok (guard (length input == 187 || length input == 155) private_bundle_invalid) _ h1 in
    let ((c, rest), read, same) = >>=-eq-ok (read_private_bundle input) _ h2 in
    rw (← ok_injective same) (read-Reads input bytes read)
