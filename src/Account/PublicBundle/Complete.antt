-- ===== src/Account/PublicBundle/Complete.antt =====
-- The complete public bundle and the rotation candidate of rust/src/api/account_envelope/codec.rs.
use mathlib.Core.Path.{subst}
use openmls_dart.Prelude.{
  ◌+◌, ◌≡◌, refl, ap, sym, ◌∙◌, Bool, true, not, ◌||◌, ◌&&◌, Option, none, some, [], length,
  length-append, All, All-of_append, IsByte, Bytes, ltb, ◌==◌, is_some, ok, guard, >>-eq-ok,
  >>=-eq-ok, guard-eq-ok, arith, ok_injective, ◌≤◌, replicate,
}
use openmls_dart.Account.Types.{
  non_canonical_encoding, AccountEnvelopeActivationKindV1, initial, rotation, continuity_reset,
}
use openmls_dart.Account.Cursor.{is_finished, optional_bytes}
use openmls_dart.Account.Cursor.Laws.{HasLength, read_array-append, optional_last}
use openmls_dart.Account.Cursor.Reads.{nothing_left, whole_input, Reads-then}
use openmls_dart.Account.Cursor.Steps.{check_step, lift_step, array_step, optional_step}
use openmls_dart.Account.PublicBundle.{
  PublicBundleTbsV1, ParsedPublicBundleV1, encode_public_bundle_tbs, encode_complete_public_bundle,
  encode_rotation_candidate, parse_public_bundle_tbs, is_valid_shape, validate_bundle_shape,
  read_complete_public_bundle, parse_complete_public_bundle, is_rotation, read_rotation_candidate,
  parse_rotation_candidate,
}
use openmls_dart.Account.PublicBundle.Tbs.{
  IsTbs, parse-encode_public_bundle_tbs, parse_public_bundle_tbs-eq-ok,
  length-encode_public_bundle_tbs,
}

-- A complete bundle that can be published: its signed part can, its bytes are that part's, the
-- signatures have their length, and the transition signature is there exactly for a rotation.
pub record IsComplete (p : ParsedPublicBundleV1) : Type 0 where
  pub tbs_valid : IsTbs p.tbs
  pub tbs_encoded : encode_public_bundle_tbs p.tbs ≡ p.tbs_bytes
  pub self_length : length p.self_signature ≡ 64
  pub transition_length : HasLength 64 p.transition_signature
  pub shape : is_valid_shape p.tbs.activation_kind p.tbs (is_some p.transition_signature) ≡ true

abbrev encode_parsed : ParsedPublicBundleV1 → Bytes
encode_parsed p = encode_complete_public_bundle p.tbs_bytes p.self_signature p.transition_signature

parse_encoded_tbs :
    (p : ParsedPublicBundleV1) → IsComplete p → parse_public_bundle_tbs p.tbs_bytes ≡ ok p.tbs
parse_encoded_tbs p w =
    ap parse_public_bundle_tbs (sym w.tbs_encoded)
    ∙ parse-encode_public_bundle_tbs p.tbs w.tbs_valid

tbs_length : (p : ParsedPublicBundleV1) → IsComplete p → length p.tbs_bytes ≡ 107
tbs_length p w = ap length (sym w.tbs_encoded) ∙ length-encode_public_bundle_tbs p.tbs w.tbs_valid

optional_length :
    (k : Option Bytes)
    → HasLength 64 k
    → not (
        ltb 256 (171 + length (optional_bytes k))
        || (not (171 + length (optional_bytes k) == 172)
            && not (171 + length (optional_bytes k) == 236)))
      ≡ true
optional_length none h = refl
optional_length (some signature) h = rw h refl

length-encode_parsed :
    (p : ParsedPublicBundleV1)
    → IsComplete p
    → length (encode_parsed p) ≡ 171 + length (optional_bytes p.transition_signature)
unfolding encode_complete_public_bundle
length-encode_parsed p w =
    rw
      (length-append p.tbs_bytes _, length-append p.self_signature _, tbs_length p w, w.self_length)
      (omega arith)

read-encode :
    (p : ParsedPublicBundleV1)
    → IsComplete p
    → read_complete_public_bundle (encode_parsed p) ≡ ok (p, [])
unfolding read_complete_public_bundle encode_complete_public_bundle is_finished
    validate_bundle_shape
read-encode p w =
    rw
      (
        read_array-append 107 p.tbs_bytes _ (tbs_length p w),
        parse_encoded_tbs p w,
        read_array-append 64 p.self_signature _ w.self_length,
      )
      (optional_last 64 non_canonical_encoding p.transition_signature _ w.transition_length
        ∙ rw w.shape)

-- A complete bundle that can be published is read back from its bytes.
pub parse-encode_complete_public_bundle :
    (p : ParsedPublicBundleV1)
    → IsComplete p
    → parse_complete_public_bundle
        (encode_complete_public_bundle p.tbs_bytes p.self_signature p.transition_signature)
      ≡ ok p
unfolding parse_complete_public_bundle
parse-encode_complete_public_bundle p w = rw (
  length-encode_parsed p w,
  optional_length p.transition_signature w.transition_length,
  read-encode p w,
)

read-Reads :
    (input : Bytes) {p : ParsedPublicBundleV1} {rest : Bytes}
    → All IsByte input
    → read_complete_public_bundle input ≡ ok (p, rest)
    → (encode_parsed p ≡ input) × IsComplete p
unfolding read_complete_public_bundle encode_complete_public_bundle validate_bundle_shape
read-Reads input {p} {rest} bytes h = array_step input bytes 107 _ h (λ tbs_bytes m1 l1 r1 h1.
    lift_step m1 (parse_public_bundle_tbs tbs_bytes) _ h1 (λ tbs c1 k1.
      array_step m1 r1.1 64 _ k1 (λ self m2 l2 r2 h2.
        optional_step m2 r2.1 64 non_canonical_encoding _ h2 (λ transition m3 l3 r3 h3.
          check_step m3 (is_finished m3) non_canonical_encoding _ h3 (λ fin k3.
            lift_step m3 (validate_bundle_shape tbs (is_some transition)) _ k3 (λ _ shape k4.
              let whole =
                Reads-then input tbs_bytes m1 _ m3 r1 (Reads-then m1 self m2 _ m3 r2 r3) in
              let (encoded, valid) =
                parse_public_bundle_tbs-eq-ok tbs_bytes tbs
                  (All-of_append IsByte tbs_bytes m1 (rw r1.0 at bytes)).0 c1 in
              subst (λ c. (encode_parsed c ≡ input) × IsComplete c)
                (ap (λ q. q.0) (ok_injective k4))
                (
                  sym (whole_input _ m3 (nothing_left m3 fin) whole.0),
                  record {
                    tbs_valid = valid;
                    tbs_encoded = encoded;
                    self_length = l2;
                    transition_length = l3;
                    shape = guard-eq-ok _ non_canonical_encoding shape;
                  },
                )))))))

-- Bytes are read as a complete bundle only if they are its encoding, and then it can be published.
pub parse_complete_public_bundle-eq-ok :
    (input : Bytes) (p : ParsedPublicBundleV1)
    → All IsByte input
    → parse_complete_public_bundle input ≡ ok p
    → (encode_complete_public_bundle p.tbs_bytes p.self_signature p.transition_signature ≡ input)
      × IsComplete p
unfolding parse_complete_public_bundle
parse_complete_public_bundle-eq-ok input p bytes h =
    let (_, h1) = >>-eq-ok (guard _ non_canonical_encoding) _ h in
    let ((c, rest), read, same) = >>=-eq-ok (read_complete_public_bundle input) _ h1 in
    let e : c ≡ p = ok_injective same in rw (← e) (read-Reads input bytes read)

first_of : (a b : Bool) → not (not a || not b) ≡ true → a ≡ true
first_of a b h = ground arith

read_candidate-Reads :
    (input : Bytes) {p : ParsedPublicBundleV1} {rest : Bytes}
    → All IsByte input
    → read_rotation_candidate input ≡ ok (p, rest)
    → (encode_rotation_candidate p.tbs_bytes p.self_signature ≡ input)
      × ((sig : Bytes)
          → length sig ≡ 64
          → IsComplete (record p { transition_signature = some sig }))
unfolding read_rotation_candidate encode_rotation_candidate validate_bundle_shape
read_candidate-Reads input {p} {rest} bytes h =
    array_step input bytes 107 _ h (λ tbs_bytes m1 l1 r1 h1.
      lift_step m1 (parse_public_bundle_tbs tbs_bytes) _ h1 (λ tbs c1 k1.
        array_step m1 r1.1 64 _ k1 (λ self m2 l2 r2 h2.
          check_step m2 (not (not (is_finished m2) || not (is_rotation tbs.activation_kind)))
            non_canonical_encoding _ h2
            (λ both k2. lift_step m2 (validate_bundle_shape tbs true) _ k2 (λ _ shape k3.
              let whole = Reads-then input tbs_bytes m1 _ m2 r1 r2 in
              let (encoded, valid) =
                parse_public_bundle_tbs-eq-ok tbs_bytes tbs
                  (All-of_append IsByte tbs_bytes m1 (rw r1.0 at bytes)).0 c1 in
              subst
                (λ c.
                  (encode_rotation_candidate c.tbs_bytes c.self_signature ≡ input)
                  × ((sig : Bytes)
                      → length sig ≡ 64
                      → IsComplete (record c { transition_signature = some sig })))
                (ap (λ q. q.0) (ok_injective k3))
                (
                  sym (whole_input _ m2 (nothing_left m2 (first_of _ _ both)) whole.0),
                  λ sig l. record {
                    tbs_valid = valid;
                    tbs_encoded = encoded;
                    self_length = l2;
                    transition_length = l;
                    shape = guard-eq-ok _ non_canonical_encoding shape;
                  },
                ))))))

rotation_of_shape :
    (kind : AccountEnvelopeActivationKindV1) (t : PublicBundleTbsV1)
    → is_valid_shape kind t true ≡ true
    → kind ≡ rotation
unfolding is_valid_shape
rotation_of_shape initial t h = absurd (ground arith)
rotation_of_shape rotation t h = refl
rotation_of_shape continuity_reset t h = absurd (ground arith)

pub candidate-IsComplete :
    (input : Bytes) (p : ParsedPublicBundleV1) (sig : Bytes)
    → All IsByte input
    → parse_rotation_candidate input ≡ ok p
    → length sig ≡ 64
    → (encode_rotation_candidate p.tbs_bytes p.self_signature ≡ input)
      × IsComplete (record p { transition_signature = some sig })
unfolding parse_rotation_candidate
candidate-IsComplete input p sig bytes h l =
    let (_, h1) = >>-eq-ok (guard _ non_canonical_encoding) _ h in
    let ((c, rest), read, same) = >>=-eq-ok (read_rotation_candidate input) _ h1 in
    let e : c ≡ p = ok_injective same in
    let (encoded, complete) = read_candidate-Reads input bytes read in
    rw (← e) (encoded, complete sig l)

pub candidate_is_rotation :
    (input : Bytes) (p : ParsedPublicBundleV1)
    → All IsByte input
    → parse_rotation_candidate input ≡ ok p
    → p.tbs.activation_kind ≡ rotation
candidate_is_rotation input p bytes h =
    let (_, complete) = candidate-IsComplete input p (replicate 64 0) bytes h refl in
    rotation_of_shape p.tbs.activation_kind p.tbs complete.shape

pub parse_complete_public_bundle-small :
    (input : Bytes) (p : ParsedPublicBundleV1)
    → parse_complete_public_bundle input ≡ ok p
    → length input ≤ 256
unfolding parse_complete_public_bundle
parse_complete_public_bundle-small input p h =
    let fits : Bool =
      not (ltb 256 (length input) || (not (length input == 172) && not (length input == 236))) in
    let (small, _) = >>-eq-ok (guard fits non_canonical_encoding) _ h in
    let n : fits ≡ true = guard-eq-ok fits non_canonical_encoding small in ground arith

-- A rotation candidate that is read from bytes is the encoding of its parts, and with any transition signature
-- of 64 bytes they make a complete bundle that is read back.
pub rotation_candidate_completes :
    (input : Bytes) (p : ParsedPublicBundleV1) (sig : Bytes)
    → All IsByte input
    → parse_rotation_candidate input ≡ ok p
    → length sig ≡ 64
    → (encode_rotation_candidate p.tbs_bytes p.self_signature ≡ input)
      × (parse_complete_public_bundle
            (encode_complete_public_bundle p.tbs_bytes p.self_signature (some sig))
          ≡ ok (record p { transition_signature = some sig }))
rotation_candidate_completes input p sig bytes h l =
    let (encoded, complete) = candidate-IsComplete input p sig bytes h l in
    (
      encoded,
      parse-encode_complete_public_bundle (record p { transition_signature = some sig }) complete,
    )
