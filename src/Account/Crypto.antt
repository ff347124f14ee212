-- ===== src/Account/Crypto.antt =====
-- The cryptographic calls of rust/src/api/account_envelope/crypto.rs. The provider is not part of the
-- repository: it is the parameter `CryptoProvider`. Sealing and key generation draw randomness, so
-- they take the entropy of the call.
use openmls_dart.Prelude.{
  ℕ, ◌+◌, Bool, not, Option, none, some, List, [], ◌∷◌, ◌++◌, length, Bytes, ascii, bytes_eq, ltb,
  ◌==◌, ok, ◌>>=◌, ◌>>◌, guard, ok_or,
}
use openmls_dart.Account.Types.{
  AccountEnvelopeResult, bounds_exceeded, internal_crypto_failure, private_bundle_invalid,
  signature_invalid, hpke_open_failed, key_bytes, signature_bytes,
  AccountEnvelopePrivateBundleAuthorityV1, DecodedPrivateBundleV1, active_full,
}

-- `HpkeCiphertext`.
pub record HpkeCiphertext : Type 0 where
  pub kem_output : Bytes
  pub ciphertext : Bytes

-- The calls of `RustCrypto` with the fixed suite. `none` is an error, whose text is dropped.
pub record CryptoProvider : Type 0 where
  -- The message and the private key.
  pub sign : Bytes → Bytes → Option Bytes
  -- The message, the public key and the signature.
  pub verify_signature : Bytes → Bytes → Bytes → Bool
  -- The entropy, the public key, the info, the additional data and the plaintext.
  pub hpke_seal : Bytes → Bytes → Bytes → Bytes → Bytes → Option HpkeCiphertext
  -- The private key, the info and the additional data.
  pub hpke_open : HpkeCiphertext → Bytes → Bytes → Bytes → Option Bytes
  -- The entropy and the number of bytes.
  pub random_vec : Bytes → ℕ → Option Bytes
  -- The private key, then the public key.
  pub derive_hpke_keypair : Bytes → Option (Bytes × Bytes)
  pub signature_key_gen : Bytes → Option (Bytes × Bytes)

-- Every domain ends with a zero byte.
abbrev pub bundle_self_signature_domain_v1 : Bytes
bundle_self_signature_domain_v1 =
    ascii "openmls_dart/account-envelope/bundle-self-signature/v1" ++ 0 ∷ []

abbrev pub bundle_transition_signature_domain_v1 : Bytes
bundle_transition_signature_domain_v1 =
    ascii "openmls_dart/account-envelope/bundle-transition-signature/v1" ++ 0 ∷ []

abbrev pub bundle_digest_domain_v1 : Bytes
bundle_digest_domain_v1 = ascii "openmls_dart/account-envelope/bundle-digest/v1" ++ 0 ∷ []

abbrev pub envelope_signature_domain_v1 : Bytes
envelope_signature_domain_v1 = ascii "openmls_dart/account-envelope/envelope-signature/v1" ++ 0 ∷ []

abbrev pub hpke_context_domain_v1 : Bytes
hpke_context_domain_v1 = ascii "openmls_dart/account-envelope/hpke-context/v1" ++ 0 ∷ []

abbrev pub key_self_test_info_v1 : Bytes
key_self_test_info_v1 = ascii "openmls_dart/account-envelope/key-self-test/v1" ++ 0 ∷ []

abbrev pub key_self_test_aad_v1 : Bytes
key_self_test_aad_v1 = ascii "account-envelope-key-pair"

abbrev pub key_self_test_plaintext_v1 : Bytes
key_self_test_plaintext_v1 = ascii "ok"

abbrev pub signature_transcript_max_bytes : ℕ
signature_transcript_max_bytes = 4096

-- The sum of the lengths. One that overflows is above the maximum, with the same error.
abbrev pub total_length : ℕ → List Bytes → ℕ
total_length n [] = n
total_length n (part ∷ parts) = total_length (n + length part) parts

abbrev pub joined : List Bytes → Bytes
joined [] = []
joined (part ∷ parts) = part ++ joined parts

unfoldable pub transcript : Bytes → List Bytes → AccountEnvelopeResult Bytes
transcript domain parts = do
  guard (not (ltb signature_transcript_max_bytes (total_length (length domain) parts)))
      bounds_exceeded
  ok (domain ++ joined parts)

unfoldable pub exact_key : Bytes → AccountEnvelopeResult Bytes
exact_key input = do guard (length input == key_bytes) internal_crypto_failure; ok input

unfoldable pub exact_signature : Bytes → AccountEnvelopeResult Bytes
exact_signature input = do guard (length input == signature_bytes) internal_crypto_failure; ok input

module _ (c : CryptoProvider) where
  unfoldable pub sign_domain_message : Bytes → List Bytes → Bytes → AccountEnvelopeResult Bytes
  sign_domain_message domain message_parts private_key = do
    message ← transcript domain message_parts
    signature ← ok_or (c.sign message private_key) internal_crypto_failure
    exact_signature signature

  unfoldable pub verify_domain_signature :
      Bytes → List Bytes → Bytes → Bytes → AccountEnvelopeResult (Unit {0})
  verify_domain_signature domain message_parts public_key signature = do
    message ← transcript domain message_parts
    guard (c.verify_signature message public_key signature) signature_invalid

  -- The first part of `validate_private_bundle_crypto`: a signing key signs for the public one.
  unfoldable pub self_test_signature : Option Bytes → Bytes → AccountEnvelopeResult (Unit {0})
  self_test_signature none public_key = ok tt
  self_test_signature (some private_key) public_key = do
    signature ← ok_or (c.sign key_self_test_info_v1 private_key) private_bundle_invalid
    guard (c.verify_signature key_self_test_info_v1 public_key signature) private_bundle_invalid

  unfoldable pub validate_private_bundle_crypto :
      Bytes → DecodedPrivateBundleV1 → AccountEnvelopeResult (Unit {0})
  validate_private_bundle_crypto entropy bundle = do
    self_test_signature bundle.signature_private_key bundle.signature_public_key
    sealed ←
        ok_or
          (c.hpke_seal entropy bundle.hpke_public_key key_self_test_info_v1 key_self_test_aad_v1
            key_self_test_plaintext_v1)
          private_bundle_invalid
    opened ←
        ok_or
          (c.hpke_open sealed bundle.hpke_private_key key_self_test_info_v1 key_self_test_aad_v1)
          private_bundle_invalid
    guard (bytes_eq opened key_self_test_plaintext_v1) private_bundle_invalid

  -- The entropy of the seed, of the signature key and of the self-test.
  unfoldable pub generate_private_bundle :
      Bytes
      → Bytes
      → Bytes
      → AccountEnvelopePrivateBundleAuthorityV1
      → AccountEnvelopeResult DecodedPrivateBundleV1
  generate_private_bundle seed_entropy key_entropy test_entropy authority = do
    ikm ← ok_or (c.random_vec seed_entropy key_bytes) internal_crypto_failure
    hpke ← ok_or (c.derive_hpke_keypair ikm) internal_crypto_failure
    signing ← ok_or (c.signature_key_gen key_entropy) internal_crypto_failure
    hpke_private_key ← exact_key hpke.0
    hpke_public_key ← exact_key hpke.1
    signature_private_key ← exact_key signing.0
    signature_public_key ← exact_key signing.1
    let bundle : DecodedPrivateBundleV1 = record {
      state = active_full;
      authority = authority;
      hpke_private_key = hpke_private_key;
      hpke_public_key = hpke_public_key;
      signature_private_key = some signature_private_key;
      signature_public_key = signature_public_key;
    }
    validate_private_bundle_crypto test_entropy bundle
    ok bundle

  unfoldable pub hpke_seal_invitation :
      Bytes → Bytes → Bytes → Bytes → AccountEnvelopeResult (Bytes × Bytes)
  hpke_seal_invitation entropy recipient_public_key canonical_header plaintext = do
    sealed ←
        ok_or
          (c.hpke_seal entropy recipient_public_key hpke_context_domain_v1 canonical_header
            plaintext)
          internal_crypto_failure
    encapsulation ← exact_key sealed.kem_output
    ok (encapsulation, sealed.ciphertext)

  unfoldable pub hpke_open_invitation : Bytes → Bytes → Bytes → Bytes → AccountEnvelopeResult Bytes
  hpke_open_invitation recipient_private_key canonical_header encapsulation ciphertext =
      ok_or
        (c.hpke_open (record { kem_output = encapsulation; ciphertext = ciphertext })
          recipient_private_key hpke_context_domain_v1 canonical_header)
        hpke_open_failed
