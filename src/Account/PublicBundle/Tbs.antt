-- ===== src/Account/PublicBundle/Tbs.antt =====
-- The signed part of the public bundle of rust/src/api/account_envelope/codec.rs: its bytes and its
-- fields are one.
use mathlib.Core.Path.{subst}
use openmls_dart.Prelude.{
  ℕ, ◌-◌, ◌<◌, ◌≤◌, ◌^◌, ◌≡◌, refl, ap, sym, ◌∙◌, Bool, true, false, not, ◌||◌, Option, none, some,
  [], ◌∷◌, ◌++◌, length, length-append, All, IsByte, Bytes, to_be_bytes, length-to_be_bytes, ltb,
  ◌==◌, ok, >>=-eq-ok, ==_iff, arith, ok_injective, Bool-cases, inl, inr,
}
use openmls_dart.Account.Types.{
  unsupported_version, non_canonical_encoding, max_web_safe_integer, is_canonical_uuid,
  AccountEnvelopeActivationKindV1, initial, rotation, continuity_reset, activation_value,
  activation_from_u8, AccountEnvelopeResetReasonV1, identity_reset, chat_store_reset,
  root_installation_move, root_or_database_key_loss, account_recovery, compromise, reset_reason_new,
  reset_reason_value,
}
use openmls_dart.Account.Cursor.{is_finished, suite_bytes}
use openmls_dart.Account.Cursor.Laws.{
  read_array-append, read_u8-cons, read_u64-append, read_suite-append,
}
use openmls_dart.Account.Cursor.Reads.{nothing_left, whole_input, Reads-then, Reads-same}
use openmls_dart.Account.Cursor.Steps.{
  u8_step, check_step, lift_step, array_step, u64_step, suite_step,
}
use openmls_dart.Account.PrivateBundle.{all_zero}
use openmls_dart.Account.PublicBundle.{
  PublicBundleTbsV1, reset_value, encode_public_bundle_tbs, parse_reset_reason,
  read_public_bundle_tbs, parse_public_bundle_tbs,
}

-- A signed part that can be published: its arrays have their lengths, the account is a canonical
-- UUID, the generations are web-safe and the first is not zero, and no key is all zero.
pub record IsTbs (t : PublicBundleTbsV1) : Type 0 where
  pub account_length : length t.account_id ≡ 16
  pub account_canonical : is_canonical_uuid t.account_id ≡ true
  pub generation_range : (1 ≤ t.generation) × (t.generation ≤ 2 ^ 53 - 1)
  pub previous_range : t.previous_generation ≤ 2 ^ 53 - 1
  pub hpke_length : length t.hpke_public_key ≡ 32
  pub signature_length : length t.signature_public_key ≡ 32
  pub hpke_nonzero : all_zero t.hpke_public_key ≡ false
  pub signature_nonzero : all_zero t.signature_public_key ≡ false

activation_from_u8-activation_value :
    (k : AccountEnvelopeActivationKindV1) → activation_from_u8 (activation_value k) ≡ ok k
unfolding activation_from_u8 activation_value
activation_from_u8-activation_value initial = refl
activation_from_u8-activation_value rotation = refl
activation_from_u8-activation_value continuity_reset = refl

activation_from_u8-eq-ok :
    (v : ℕ) (k : AccountEnvelopeActivationKindV1)
    → activation_from_u8 v ≡ ok k
    → v ≡ activation_value k
unfolding activation_from_u8 activation_value
activation_from_u8-eq-ok v initial h = ground arith
activation_from_u8-eq-ok v rotation h = ground arith
activation_from_u8-eq-ok v continuity_reset h = ground arith

parse_reset_reason-reset_value :
    (r : Option AccountEnvelopeResetReasonV1) → parse_reset_reason (reset_value r) ≡ ok r
unfolding parse_reset_reason reset_reason_new reset_reason_value
parse_reset_reason-reset_value none = refl
parse_reset_reason-reset_value (some identity_reset) = refl
parse_reset_reason-reset_value (some chat_store_reset) = refl
parse_reset_reason-reset_value (some root_installation_move) = refl
parse_reset_reason-reset_value (some root_or_database_key_loss) = refl
parse_reset_reason-reset_value (some account_recovery) = refl
parse_reset_reason-reset_value (some compromise) = refl

reset_reason_new-eq-ok :
    (v : ℕ) (r : AccountEnvelopeResetReasonV1)
    → reset_reason_new v ≡ ok r
    → v ≡ reset_reason_value r
unfolding reset_reason_new reset_reason_value
reset_reason_new-eq-ok v identity_reset h = ground arith
reset_reason_new-eq-ok v chat_store_reset h = ground arith
reset_reason_new-eq-ok v root_installation_move h = ground arith
reset_reason_new-eq-ok v root_or_database_key_loss h = ground arith
reset_reason_new-eq-ok v account_recovery h = ground arith
reset_reason_new-eq-ok v compromise h = ground arith

parse_reset_reason-eq-ok :
    (v : ℕ) (r : Option AccountEnvelopeResetReasonV1)
    → parse_reset_reason v ≡ ok r
    → v ≡ reset_value r
unfolding parse_reset_reason
parse_reset_reason-eq-ok v r h = elim (Bool-cases (v == 0)) [
  | inl no_reason ↦ (==_iff v 0).0 no_reason ∙ ap reset_value (ok_injective (rw no_reason at h))
  | inr reason ↦
      let (x, new, same) = >>=-eq-ok (reset_reason_new v) _ (rw reason at h) in
      reset_reason_new-eq-ok v x new ∙ ap reset_value (ok_injective same)
]

generation_small : (n : ℕ) → n ≤ 2 ^ 53 - 1 → n < 2 ^ 64
generation_small n h = omega arith

nonzero : (n : ℕ) → 1 ≤ n → (n == 0) ≡ false
nonzero n h = ground arith

above_zero : (n : ℕ) → (n == 0) ≡ false → 1 ≤ n
above_zero n h = ground arith

web_safe : (n : ℕ) → n ≤ 2 ^ 53 - 1 → ltb max_web_safe_integer n ≡ false
web_safe n h = ground arith

in_range : (n : ℕ) → ltb max_web_safe_integer n ≡ false → n ≤ 2 ^ 53 - 1
in_range n h = ground arith

read-encode :
    (t : PublicBundleTbsV1)
    → IsTbs t
    → read_public_bundle_tbs (encode_public_bundle_tbs t) ≡ ok (t, [])
unfolding read_public_bundle_tbs encode_public_bundle_tbs is_finished
read-encode t w = rw (
  read_u8-cons 1 _,
  read_array-append 16 t.account_id _ w.account_length,
  read_u64-append t.generation _ (generation_small (t.generation) w.generation_range.1),
  read_suite-append non_canonical_encoding _,
  read_array-append 32 t.hpke_public_key _ w.hpke_length,
  read_array-append 32 t.signature_public_key _ w.signature_length,
  read_u8-cons (activation_value t.activation_kind) _,
  activation_from_u8-activation_value t.activation_kind,
  read_u64-append t.previous_generation _
      (generation_small (t.previous_generation) w.previous_range),
  read_u8-cons (reset_value t.reset_reason) _,
  w.account_canonical,
  w.hpke_nonzero,
  w.signature_nonzero,
  nonzero t.generation w.generation_range.0,
  web_safe t.generation w.generation_range.1,
  web_safe t.previous_generation w.previous_range,
  parse_reset_reason-reset_value t.reset_reason,
)

-- A signed part that can be published is read back from its bytes.
pub parse-encode_public_bundle_tbs :
    (t : PublicBundleTbsV1) → IsTbs t → parse_public_bundle_tbs (encode_public_bundle_tbs t) ≡ ok t
unfolding parse_public_bundle_tbs
parse-encode_public_bundle_tbs t w = rw (read-encode t w)

all_passed :
    (f u n g p a b : Bool)
    → not (not f || (not u || (n || (g || (p || (a || b)))))) ≡ true
    → (f ≡ true) × (u ≡ true) × (n ≡ false) × (g ≡ false) × (p ≡ false) × (a ≡ false) × (b ≡ false)
all_passed f u n g p a b h = ground arith

read-Reads :
    (input : Bytes) {t : PublicBundleTbsV1} {rest : Bytes}
    → All IsByte input
    → read_public_bundle_tbs input ≡ ok (t, rest)
    → (encode_public_bundle_tbs t ≡ input) × IsTbs t
unfolding read_public_bundle_tbs encode_public_bundle_tbs
read-Reads input {t} {rest} bytes h = u8_step input bytes _ h (λ version m1 r1 h1.
    check_step m1 (version == 1) unsupported_version _ h1 (λ c1 k1.
      array_step m1 r1.1 16 _ k1 (λ account m2 l2 r2 h2.
        u64_step m2 r2.1 _ h2 (λ generation m3 r3 h3.
          suite_step m3 r3.1 non_canonical_encoding _ h3 (λ m4 r4 h4.
            array_step m4 r4.1 32 _ h4 (λ hpke m5 l5 r5 h5.
              array_step m5 r5.1 32 _ h5 (λ signature m6 l6 r6 h6.
                u8_step m6 r6.1 _ h6 (λ raw m7 r7 h7.
                  lift_step m7 (activation_from_u8 raw) _ h7 (λ kind c7 k7.
                    u64_step m7 r7.1 _ k7 (λ previous m8 r8 h8.
                      u8_step m8 r8.1 _ h8 (λ reset m9 r9 h9.
                        check_step m9
                          (not (
                            not (is_finished m9)
                            || (not (is_canonical_uuid account)
                                || (generation == 0
                                    || (ltb max_web_safe_integer generation
                                        || (ltb max_web_safe_integer previous
                                            || (all_zero hpke || all_zero signature)))))))
                          non_canonical_encoding _ h9
                          (λ c9 k9. lift_step m9 (parse_reset_reason reset) _ k9 (λ reason c10 k10.
                            let (fin, canonical, positive, small, previous_small, z1, z2) =
                              all_passed _ _ _ _ _ _ _ c9 in
                            let after_kind : Bytes =
                              to_be_bytes 8 previous ++ reset_value reason ∷ [] in
                            let after_version : Bytes =
                              account
                              ++ (to_be_bytes 8 generation
                                  ++ (suite_bytes
                                      ++ (hpke
                                          ++ (signature
                                              ++ (activation_value kind ∷ after_kind))))) in
                            let whole =
                              Reads-then input (1 ∷ []) m1 after_version m9
                                (Reads-same input (version ∷ []) (1 ∷ []) m1 m1
                                  (ap (λ v. v ∷ []) ((==_iff version 1).0 c1)) refl r1)
                                (Reads-then m1 account m2 _ m9 r2 (
                                  Reads-then m2 _ m3 _ m9 r3 (
                                    Reads-then m3 _ m4 _ m9 r4 (
                                      Reads-then m4 _ m5 _ m9 r5 (
                                        Reads-then m5 signature m6
                                          (activation_value kind ∷ after_kind) m9 r6
                                          (Reads-then m6 (activation_value kind ∷ []) m7 after_kind
                                            m9
                                            (Reads-same m6 (raw ∷ []) (activation_value kind ∷ [])
                                              m7 m7
                                              (ap (λ v. v ∷ [])
                                                (activation_from_u8-eq-ok raw kind c7))
                                              refl r7)
                                            (Reads-then m7 (to_be_bytes 8 previous) m8
                                              (reset_value reason ∷ []) m9 r8
                                              (Reads-same m8 (reset ∷ []) (reset_value reason ∷ [])
                                                m9 m9
                                                (ap (λ v. v ∷ [])
                                                  (parse_reset_reason-eq-ok reset reason c10))
                                                refl r9)))))))) in
                            subst (λ c. (encode_public_bundle_tbs c ≡ input) × IsTbs c)
                              (ap (λ p. p.0) (ok_injective k10))
                              (
                                sym (
                                    whole_input (1 ∷ after_version) m9 (nothing_left m9 fin)
                                      whole.0),
                                record {
                                  account_length = l2;
                                  account_canonical = canonical;
                                  generation_range =
                                      (above_zero generation positive, in_range generation small);
                                  previous_range = in_range previous previous_small;
                                  hpke_length = l5;
                                  signature_length = l6;
                                  hpke_nonzero = z1;
                                  signature_nonzero = z2;
                                },
                              ))))))))))))))

-- Bytes are read as a signed part only if they are its encoding, and then it can be published.
pub parse_public_bundle_tbs-eq-ok :
    (input : Bytes) (t : PublicBundleTbsV1)
    → All IsByte input
    → parse_public_bundle_tbs input ≡ ok t
    → (encode_public_bundle_tbs t ≡ input) × IsTbs t
unfolding parse_public_bundle_tbs
parse_public_bundle_tbs-eq-ok input t bytes h =
    let ((c, rest), read, same) = >>=-eq-ok (read_public_bundle_tbs input) _ h in
    rw (← ok_injective same) (read-Reads input bytes read)

-- The signed part has its fixed length.
pub length-encode_public_bundle_tbs :
    (t : PublicBundleTbsV1) → IsTbs t → length (encode_public_bundle_tbs t) ≡ 107
unfolding encode_public_bundle_tbs
length-encode_public_bundle_tbs t w =
    rw
      (
        length-append t.account_id _,
        length-append (to_be_bytes 8 t.generation) _,
        length-append suite_bytes _,
        length-append t.hpke_public_key _,
        length-append t.signature_public_key _,
        length-append (to_be_bytes 8 t.previous_generation) _,
        w.account_length,
        w.hpke_length,
        w.signature_length,
        length-to_be_bytes 8 t.generation,
        length-to_be_bytes 8 t.previous_generation,
      )
      (unfold to_be_bytes in omega arith)
