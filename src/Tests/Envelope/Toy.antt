-- ===== src/Tests/Envelope/Toy.antt =====
-- A provider for tests of rust/src/api/account_envelope: a public key is its private key, a signature
-- is the length of the message with the key, and sealing adds the key and a tag of zeros.
use openmls_dart.Prelude.{
  ◌-◌, ◌%◌, some, none, [], ◌∷◌, ◌++◌, length, Bytes, bytes_eq, replicate, take, if◌then◌else◌,
}
use openmls_dart.Account.Crypto.{CryptoProvider}

-- Version 4, variant 2.
abbrev pub account : Bytes
account = 1 ∷ 2 ∷ 3 ∷ 4 ∷ 5 ∷ 6 ∷ 64 ∷ 7 ∷ 128 ∷ 8 ∷ 9 ∷ 10 ∷ 11 ∷ 12 ∷ 13 ∷ 14 ∷ []

abbrev pub toy_signature : Bytes → Bytes → Bytes
toy_signature message key = replicate 32 (length message % 256) ++ key

abbrev pub toy_sha256 : Bytes → Bytes
toy_sha256 input = take 32 input

abbrev pub toy : CryptoProvider
toy = record {
  sign = λ message key. some (toy_signature message key);
  verify_signature = λ message key signature. bytes_eq signature (toy_signature message key);
  hpke_seal = λ entropy key info aad plaintext.
      some (record { kem_output = key; ciphertext = plaintext ++ replicate 16 0 });
  hpke_open = λ sealed key info aad.
      if bytes_eq sealed.kem_output key
      then some (take (length sealed.ciphertext - 16) sealed.ciphertext)
      else none;
  random_vec = λ entropy n. some (replicate n 5);
  derive_hpke_keypair = λ ikm. some (ikm, ikm);
  signature_key_gen = λ entropy. some (replicate 32 6, replicate 32 6);
}
