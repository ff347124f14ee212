-- ===== src/Account/PrivateBundle.antt =====
-- The private bundle of rust/src/api/account_envelope/codec.rs.
pub mod RoundTrip
use openmls_dart.Prelude.{
  ℕ, Bool, true, false, not, ◌||◌, Option, none, some, List, [], ◌∷◌, ◌++◌, length, all, Bytes,
  to_be_bytes, ltb, ◌==◌, is_some, Result, ok, err, guard, map_err,
}
use openmls_dart.Prelude
use openmls_dart.Account.Types.{
  AccountEnvelopeErrorCodeV1, AccountEnvelopeResult, private_bundle_invalid, format_version_v1,
  private_bundle_active_bytes, private_bundle_retired_bytes, private_bundle_max_bytes, key_bytes,
  hpke_kem_id, hpke_kdf_id, hpke_aead_id, signature_scheme_id,
  AccountEnvelopePrivateBundleAuthorityV1, validate_authority, PrivateBundleStateV1, active_full,
  retired_decrypt_only, state_as_u8, state_from_u8, DecodedPrivateBundleV1,
}
use openmls_dart.Account.Cursor.{
  Reader, ◌>>=◌, ◌>>◌, pure, lift, check, read_array, read_u8, read_u64, remaining, is_finished,
  read_suite, read_optional, suite_bytes, optional_bytes,
}

unfoldable pub encode_private_bundle : DecodedPrivateBundleV1 → Bytes
encode_private_bundle b =
    (format_version_v1 ∷ [])
    ++ ((state_as_u8 b.state ∷ [])
        ++ (b.authority.account_id
            ++ (to_be_bytes 8 b.authority.generation
                ++ (b.authority.root_installation_id
                    ++ (to_be_bytes 8 b.authority.root_authority_generation
                        ++ (suite_bytes
                            ++ (b.hpke_private_key
                                ++ (b.hpke_public_key
                                    ++ (optional_bytes b.signature_private_key
                                        ++ b.signature_public_key)))))))))

abbrev pub all_zero : Bytes → Bool
all_zero bytes = all (λ byte. byte == 0) bytes

-- The `matches!` of a state and the presence of the signature key.
abbrev pub is_mismatch : PrivateBundleStateV1 → Bool → Bool
is_mismatch active_full present = not present
is_mismatch retired_decrypt_only present = present

-- What `decode_private_bundle` does with its cursor.
unfoldable pub read_private_bundle : Reader DecodedPrivateBundleV1
read_private_bundle = do
  version ← read_u8
  check (version == format_version_v1) private_bundle_invalid
  raw_state ← read_u8
  state ← lift (state_from_u8 raw_state)
  account_id ← read_array 16
  generation ← read_u64
  root_installation_id ← read_array 16
  root_authority_generation ← read_u64
  let authority : AccountEnvelopePrivateBundleAuthorityV1 = record {
    account_id = account_id;
    generation = generation;
    root_installation_id = root_installation_id;
    root_authority_generation = root_authority_generation;
  }
  lift (map_err (λ _. private_bundle_invalid) (validate_authority authority))
  read_suite private_bundle_invalid
  hpke_private_key ← read_array key_bytes
  hpke_public_key ← read_array key_bytes
  flag ← read_u8
  signature_private_key ← read_optional key_bytes private_bundle_invalid flag
  signature_public_key ← read_array key_bytes
  rest ← remaining
  check
      (not (
        not (is_finished rest)
        || (all_zero hpke_private_key
            || (all_zero hpke_public_key
                || (all_zero signature_public_key
                    || is_mismatch state (is_some signature_private_key))))))
      private_bundle_invalid
  pure (record {
    state = state;
    authority = authority;
    hpke_private_key = hpke_private_key;
    hpke_public_key = hpke_public_key;
    signature_private_key = signature_private_key;
    signature_public_key = signature_public_key;
  })

unfoldable pub decode_private_bundle : Bytes → AccountEnvelopeResult DecodedPrivateBundleV1
decode_private_bundle input =
    Prelude.◌>>◌ (guard (not (ltb private_bundle_max_bytes (length input))) private_bundle_invalid)
      (Prelude.◌>>◌
        (guard
          (length input == private_bundle_active_bytes
            || length input == private_bundle_retired_bytes)
          private_bundle_invalid)
        (Prelude.◌>>=◌ (read_private_bundle input) (λ r. ok r.0)))
