-- ===== src/Account/Sealing/Calls.antt =====
-- The calls that rust/src/api/account_envelope/mod.rs seals and opens an invitation with, and what is
-- documented of the provider's.
use openmls_dart.Prelude.{
  ℕ, zero, suc, ◌+◌, ◌-◌, ◌≤◌, ◌≡◌, refl, ap, sym, ◌∙◌, true, false, not, ◌||◌, Option, none, some,
  List, ◌++◌, length, take, drop, replicate, any, Bytes, ltb, ◌==◌, to_be_bytes, from_be_bytes,
  length-to_be_bytes, from-to_be_bytes, length-append, arith, ok, ok_or, guard, guard-true,
  guard-eq-ok, ==_iff, >>=-eq-ok, >>-eq-ok, ok_injective,
}
use openmls_dart.Account.Types.{bounds_exceeded, internal_crypto_failure, plaintext_schema_invalid}
use openmls_dart.Account.Crypto.{
  CryptoProvider, HpkeCiphertext, hpke_context_domain_v1, transcript, exact_key, exact_signature,
  sign_domain_message, verify_domain_signature, hpke_seal_invitation, hpke_open_invitation,
}
use openmls_dart.Account.Invitation.{
  AccountEnvelopePaddingClassV1, bytes512, bytes1024, bytes2048, plaintext_bytes,
}
use openmls_dart.Account.Invitation.Slices.{take_exact, drop_over}
use openmls_dart.Account.Sealing.{padded, unpadded}

ok_or-eq-ok : {A E : Type 0} (o : Option A) (e : E) {a : A} → ok_or o e ≡ ok a → o ≡ some a
ok_or-eq-ok none e h = absurd (cc h)
ok_or-eq-ok (some a) e h = ap some (ok_injective h)

pub exact_key-eq-ok : (b k : Bytes) → exact_key b ≡ ok k → (b ≡ k) × (length k ≡ 32)
unfolding exact_key
exact_key-eq-ok b k h =
    let (size, same) = >>-eq-ok (guard (length b == 32) internal_crypto_failure) _ h in
    let e : b ≡ k = ok_injective same in
    (e, ap length (sym e) ∙ (==_iff (length b) 32).0 (guard-eq-ok _ _ size))

exact_signature-eq-ok : (b s : Bytes) → exact_signature b ≡ ok s → (b ≡ s) × (length s ≡ 64)
unfolding exact_signature
exact_signature-eq-ok b s h =
    let (size, same) = >>-eq-ok (guard (length b == 64) internal_crypto_failure) _ h in
    let e : b ≡ s = ok_injective same in
    (e, ap length (sym e) ∙ (==_iff (length b) 64).0 (guard-eq-ok _ _ size))

module _ (c : CryptoProvider) where
  -- A key pair of the signature scheme: what the private key signs verifies under the public one.
  pub record SignsFor (private_key public_key : Bytes) : Type 0 where
    pub verifies :
        (message signature : Bytes)
        → c.sign message private_key ≡ some signature
        → c.verify_signature message public_key signature ≡ true

  -- A key pair of HPKE: what is sealed for the public key is opened by the private one.
  pub record OpensFor (private_key public_key : Bytes) : Type 0 where
    pub opens :
        (entropy info aad plaintext : Bytes) (sealed : HpkeCiphertext)
        → c.hpke_seal entropy public_key info aad plaintext ≡ some sealed
        → c.hpke_open sealed private_key info aad ≡ some plaintext

  pub sign_domain_message-verifies :
      (domain : Bytes) (parts : List Bytes) (private_key public_key signature : Bytes)
      → SignsFor private_key public_key
      → sign_domain_message c domain parts private_key ≡ ok signature
      → (length signature ≡ 64)
        × (verify_domain_signature c domain parts public_key signature ≡ ok tt)
  unfolding sign_domain_message verify_domain_signature
  sign_domain_message-verifies domain parts private_key public_key signature pair h =
      let (message, joined, h1) = >>=-eq-ok (transcript domain parts) _ h in
      let (s, signed, h2) =
        >>=-eq-ok (ok_or (c.sign message private_key) internal_crypto_failure) _ h1 in
      let (same, size) = exact_signature-eq-ok s signature h2 in
      let good =
        pair.verifies message s
          (ok_or-eq-ok (c.sign message private_key) internal_crypto_failure signed) in
      (size, rw (joined, ← same, good) refl)

  pub hpke_seal_invitation-opens :
      (entropy private_key public_key header plaintext encapsulation ciphertext : Bytes)
      → OpensFor private_key public_key
      → hpke_seal_invitation c entropy public_key header plaintext ≡ ok (encapsulation, ciphertext)
      → (length encapsulation ≡ 32)
        × (hpke_open_invitation c private_key header encapsulation ciphertext ≡ ok plaintext)
  unfolding hpke_seal_invitation hpke_open_invitation
  hpke_seal_invitation-opens entropy private_key public_key header plaintext encapsulation
        ciphertext pair h =
      let (sealed, found, h1) =
        >>=-eq-ok
          (ok_or (c.hpke_seal entropy public_key hpke_context_domain_v1 header plaintext)
            internal_crypto_failure)
          _ h in
      let (k, exact, h2) = >>=-eq-ok (exact_key sealed.kem_output) _ h1 in
      let (same, size) = exact_key-eq-ok sealed.kem_output k exact in
      let both : (k, sealed.ciphertext) ≡ (encapsulation, ciphertext) = ok_injective h2 in
      let first : sealed.kem_output ≡ encapsulation = same ∙ ap (λ (q : Bytes × Bytes). q.0) both in
      let second : sealed.ciphertext ≡ ciphertext = ap (λ (q : Bytes × Bytes). q.1) both in
      let opened =
        pair.opens entropy hpke_context_domain_v1 header plaintext sealed
          (ok_or-eq-ok _ internal_crypto_failure found) in
      (
        ap length (sym (ap (λ (q : Bytes × Bytes). q.0) both)) ∙ size,
        rw (← first, ← second, opened) refl,
      )

-- What was padded is found again.
all_zeros : (n : ℕ) → any (λ byte. not (byte == 0)) (replicate n 0) ≡ false
all_zeros zero = refl
all_zeros (suc n) = all_zeros n

length-replicate : (n b : ℕ) → length (replicate n b) ≡ n
length-replicate zero b = refl
length-replicate (suc n) b = ap suc (length-replicate n b)

class_range :
    (class : AccountEnvelopePaddingClassV1)
    → (2 ≤ plaintext_bytes class) × (plaintext_bytes class ≤ 2048)
class_range bytes512 = (omega arith, omega arith)
class_range bytes1024 = (omega arith, omega arith)
class_range bytes2048 = (omega arith, omega arith)

enough : (n : ℕ) → 2 ≤ n → not (not (n == n) || ltb n 2) ≡ true
enough n h = ground arith

in_bounds : (n m : ℕ) → n ≤ 1817 → 2 + n ≤ m → not (ltb 1817 n || (ltb m (2 + n) || false)) ≡ true
in_bounds n m h g = ground arith

unpadded-parts :
    (class : AccountEnvelopePaddingClassV1) (plaintext inner : Bytes) (n : ℕ)
    → length plaintext ≡ plaintext_bytes class
    → from_be_bytes (take 2 plaintext) ≡ n
    → n ≤ 1817
    → 2 + n ≤ length plaintext
    → any (λ byte. not (byte == 0)) (drop (2 + n) plaintext) ≡ false
    → take n (drop 2 plaintext) ≡ inner
    → unpadded class plaintext ≡ ok inner
unfolding unpadded
unpadded-parts class plaintext inner n whole count small fits zeros found =
    let (low, _) = class_range class in
    rw (
      guard-true (not (not (length plaintext == plaintext_bytes class) || ltb (length plaintext) 2))
          plaintext_schema_invalid (rw whole (enough (plaintext_bytes class) low)),
      count,
      guard-true
          (not (
            ltb 1817 n
            || (ltb (length plaintext) (2 + n)
                || any (λ byte. not (byte == 0)) (drop (2 + n) plaintext))))
          plaintext_schema_invalid (rw zeros (in_bounds n (length plaintext) small fits)),
      found,
    )

pub padded-unpadded :
    (class : AccountEnvelopePaddingClassV1) (inner plaintext : Bytes)
    → length inner ≤ 1817
    → padded class inner ≡ ok plaintext
    → unpadded class plaintext ≡ ok inner
unfolding padded
padded-unpadded class inner plaintext small h =
    let n = length inner in
    let m = plaintext_bytes class - 2 - n in
    let word = to_be_bytes 2 n in
    let whole = word ++ (inner ++ replicate m 0) in
    let (fit, same) =
      >>-eq-ok (guard (not (ltb (plaintext_bytes class - 2) n)) bounds_exceeded) _ h in
    let f = guard-eq-ok (not (ltb (plaintext_bytes class - 2) n)) bounds_exceeded fit in
    let (low, _) = class_range class in
    let room : n ≤ plaintext_bytes class - 2 = ground arith in
    let two = length-to_be_bytes 2 n in
    let after : (k : ℕ) → drop (2 + k) whole ≡ drop k (inner ++ replicate m 0) =
      λ k. drop_over 2 k (2 + k) word _ two refl in
    let size : length whole ≡ plaintext_bytes class =
      rw
        (
          length-append word (inner ++ replicate m 0),
          length-append inner (replicate m 0),
          length-replicate m 0,
          two,
        )
        (omega (arith, room, low)) in
    ap (unpadded class) (sym (ok_injective same))
    ∙ unpadded-parts class whole inner n size
        (ap from_be_bytes (take_exact 2 word _ two) ∙ from-to_be_bytes 2 n (omega (arith, small)))
        small (omega (arith, size, room, low))
        (ap (any (λ byte. not (byte == 0))) (after n ∙ drop_over n 0 n inner _ refl (omega arith))
          ∙ all_zeros m)
        (ap (take n) (after 0) ∙ take_exact n inner _ refl)
