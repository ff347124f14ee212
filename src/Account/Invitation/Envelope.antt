-- ===== src/Account/Invitation/Envelope.antt =====
-- The envelope of an invitation, rust/src/api/account_envelope/invitation.rs: its bytes and its parts
-- are one.
use mathlib.Core.Path.{subst}
use openmls_dart.Prelude.{
  ℕ, ◌+◌, ◌≤◌, ◌≡◌, refl, ap, sym, ◌∙◌, true, not, ◌||◌, ◌++◌, length, take, drop, length-append,
  length-drop, length-take, take-append-drop, All, All-take, All-drop, IsByte, Bytes, to_be_bytes,
  from_be_bytes, length-to_be_bytes, to-from_be_bytes, from-to_be_bytes, ltb, ◌==◌, ok, guard,
  ==_iff, guard-true, guard-eq-ok, >>-eq-ok, >>=-eq-ok, arith, ok_injective,
}
use openmls_dart.Account.Types.{bounds_exceeded, non_canonical_encoding}
use openmls_dart.Account.Invitation.{
  AccountEnvelopePaddingClassV1, bytes512, bytes1024, bytes2048, ciphertext_bytes,
  ContextInvitationAuthorityV1, ParsedInvitationEnvelopeV1, parse_invitation_header,
  encode_invitation_envelope, split_envelope, parse_invitation_envelope,
}
use openmls_dart.Account.Invitation.Slices.{take_exact, take_whole, drop_over, slice_then}

-- Parts that make an envelope.
pub record IsEnvelope (p : ParsedInvitationEnvelopeV1) : Type 0 where
  pub header_length : length p.canonical_header ≡ 115
  pub header_parsed : parse_invitation_header p.canonical_header ≡ ok p.authority
  pub encapsulation_length : length p.encapsulation ≡ 32
  pub ciphertext_length : length p.ciphertext ≡ ciphertext_bytes p.authority.padding_class
  pub signature_length : length p.signature ≡ 64

abbrev pub envelope_bytes : ParsedInvitationEnvelopeV1 → Bytes
envelope_bytes p =
    p.canonical_header
    ++ (p.encapsulation ++ (to_be_bytes 2 (length p.ciphertext) ++ (p.ciphertext ++ p.signature)))

pub ciphertext_bytes_range :
    (k : AccountEnvelopePaddingClassV1) → (528 ≤ ciphertext_bytes k) × (ciphertext_bytes k ≤ 2064)
ciphertext_bytes_range bytes512 = (omega arith, omega arith)
ciphertext_bytes_range bytes1024 = (omega arith, omega arith)
ciphertext_bytes_range bytes2048 = (omega arith, omega arith)

pub length-envelope_bytes :
    (p : ParsedInvitationEnvelopeV1)
    → IsEnvelope p
    → length (envelope_bytes p) ≡ 213 + ciphertext_bytes p.authority.padding_class
length-envelope_bytes p w =
    rw
      (
        length-append p.canonical_header _,
        length-append p.encapsulation _,
        length-append (to_be_bytes 2 (length p.ciphertext)) _,
        length-append p.ciphertext _,
        length-to_be_bytes 2 (length p.ciphertext),
        w.header_length,
        w.encapsulation_length,
        w.ciphertext_length,
        w.signature_length,
      )
      (omega arith)

pub encode-IsEnvelope :
    (p : ParsedInvitationEnvelopeV1)
    → IsEnvelope p
    → encode_invitation_envelope p.canonical_header p.encapsulation p.ciphertext p.signature
      ≡ ok (envelope_bytes p)
unfolding encode_invitation_envelope
encode-IsEnvelope p w =
    let (_, small) = ciphertext_bytes_range p.authority.padding_class in
    let l = w.ciphertext_length in
    rw
      (
        guard-true (ltb (length p.ciphertext) 65536) bounds_exceeded (ground (arith, l, small)),
        guard-true (not (ltb 2277 (115 + (32 + 2 + length p.ciphertext + 64)))) bounds_exceeded
            (ground (arith, l, small)),
      )
      refl

-- What the slices of an input come to, when they are these parts.
split_parts :
    (input : Bytes) (p : ParsedInvitationEnvelopeV1) (n : ℕ)
    → IsEnvelope p
    → take 115 input ≡ p.canonical_header
    → take 32 (drop 115 input) ≡ p.encapsulation
    → from_be_bytes (take 2 (drop 147 input)) ≡ n
    → take n (drop 149 input) ≡ p.ciphertext
    → take 64 (drop (149 + n) input) ≡ p.signature
    → n ≡ ciphertext_bytes p.authority.padding_class
    → 213 + n ≡ length input
    → split_envelope input ≡ ok p
split_parts input p n w h e c t s k l = rw (
  h,
  w.header_parsed,
  c,
  guard-true (n == ciphertext_bytes p.authority.padding_class) non_canonical_encoding
      ((==_iff n (ciphertext_bytes p.authority.padding_class)).1 k),
  guard-true (149 + n + 64 == length input) non_canonical_encoding
      ((==_iff (149 + n + 64) (length input)).1 (omega (arith, l))),
  e,
  t,
  s,
)

split-envelope_bytes :
    (p : ParsedInvitationEnvelopeV1) → IsEnvelope p → split_envelope (envelope_bytes p) ≡ ok p
split-envelope_bytes p w =
    let n = length p.ciphertext in
    let body = p.ciphertext ++ p.signature in
    let word = to_be_bytes 2 n in
    let l = w.ciphertext_length in
    let (_, small) = ciphertext_bytes_range p.authority.padding_class in
    let header : take 115 (envelope_bytes p) ≡ p.canonical_header =
      take_exact 115 p.canonical_header _ w.header_length in
    let after : drop 115 (envelope_bytes p) ≡ p.encapsulation ++ (word ++ body) =
      drop_over 115 0 115 p.canonical_header _ w.header_length refl in
    let after2 : drop 147 (envelope_bytes p) ≡ word ++ body =
      drop_over 115 32 147 p.canonical_header _ w.header_length refl
      ∙ drop_over 32 0 32 p.encapsulation _ w.encapsulation_length refl in
    let after3 : (m : ℕ) → drop (149 + m) (envelope_bytes p) ≡ drop m body = λ m.
      drop_over 115 (34 + m) (149 + m) p.canonical_header _ w.header_length (omega arith)
      ∙ (drop_over 32 (2 + m) (34 + m) p.encapsulation _ w.encapsulation_length (omega arith)
          ∙ drop_over 2 m (2 + m) word _ (length-to_be_bytes 2 n) refl) in
    let count : from_be_bytes (take 2 (drop 147 (envelope_bytes p))) ≡ n =
      ap (λ t. from_be_bytes (take 2 t)) after2
      ∙ (ap from_be_bytes (take_exact 2 word body (length-to_be_bytes 2 n))
          ∙ from-to_be_bytes 2 n (omega (arith, l, small))) in
    split_parts (envelope_bytes p) p n w header
      (ap (take 32) after ∙ take_exact 32 p.encapsulation _ w.encapsulation_length) count
      (ap (take n) (after3 0) ∙ take_exact n p.ciphertext _ refl)
      (ap (take 64) (after3 n ∙ (drop_over n 0 n p.ciphertext _ refl (omega arith)))
        ∙ take_whole 64 p.signature w.signature_length)
      l (omega (arith, length-envelope_bytes p w, l))

fits : (n : ℕ) → n ≤ 2277 → not (ltb 4096 n) ≡ true
fits n h = ground arith

whole_range : (n : ℕ) → n ≤ 2277 → 213 ≤ n → not (ltb 2277 n || ltb n 213) ≡ true
whole_range n h g = ground arith

-- Parts of their lengths, whose header is one, are joined to an envelope that is read back as them.
pub parse-encode_invitation_envelope :
    (p : ParsedInvitationEnvelopeV1)
    → IsEnvelope p
    → (encode_invitation_envelope p.canonical_header p.encapsulation p.ciphertext p.signature
        ≡ ok (envelope_bytes p))
      × (parse_invitation_envelope (envelope_bytes p) ≡ ok p)
unfolding parse_invitation_envelope
parse-encode_invitation_envelope p w =
    let l = length-envelope_bytes p w in
    let (low, high) = ciphertext_bytes_range p.authority.padding_class in
    let n = length (envelope_bytes p) in
    (
      encode-IsEnvelope p w,
      rw
          (
            guard-true (not (ltb 4096 n)) bounds_exceeded (fits n (omega (arith, l, low, high))),
            guard-true (not (ltb 2277 n || ltb n 213)) non_canonical_encoding
                (whole_range n (omega (arith, l, low, high)) (omega (arith, l, low, high))),
          )
          (split-envelope_bytes p w),
    )

envelope_of_slices :
    (input : Bytes) (n : ℕ)
    → All IsByte input
    → from_be_bytes (take 2 (drop 147 input)) ≡ n
    → 213 + n ≡ length input
    → take 115 input
        ++ (take 32 (drop 115 input)
            ++ (to_be_bytes 2 n ++ (take n (drop 149 input) ++ take 64 (drop (149 + n) input))))
      ≡ input
envelope_of_slices input n bytes count l =
    let word = take 2 (drop 147 input) in
    let word_length : length word ≡ 2 =
      length-take 2 (drop 147 input) (rw (length-drop 147 input) (omega (arith, l))) in
    let is_word : to_be_bytes 2 n ≡ word =
      ap (λ (v : ℕ). to_be_bytes 2 v) (sym count)
      ∙ (ap (λ (k : ℕ). to_be_bytes k (from_be_bytes word)) (sym word_length)
          ∙ to-from_be_bytes word
              (All-take IsByte 2 (drop 147 input) (All-drop IsByte 147 input bytes))) in
    let last : take 64 (drop (149 + n) input) ≡ drop (149 + n) input =
      take_whole 64 (drop (149 + n) input) (rw (length-drop (149 + n) input) (omega (arith, l))) in
    rw
      (
        is_word,
        last,
        slice_then 149 n (149 + n) input refl,
        slice_then 147 2 149 input refl,
        slice_then 115 32 147 input refl,
      )
      (take-append-drop 115 input)

from_slices :
    (input : Bytes) (a : ContextInvitationAuthorityV1) (p : ParsedInvitationEnvelopeV1) (n : ℕ)
    → All IsByte input
    → parse_invitation_header (take 115 input) ≡ ok a
    → from_be_bytes (take 2 (drop 147 input)) ≡ n
    → n ≡ ciphertext_bytes a.padding_class
    → 213 + n ≡ length input
    → record {
      authority = a;
      canonical_header = take 115 input;
      encapsulation = take 32 (drop 115 input);
      ciphertext = take n (drop 149 input);
      signature = take 64 (drop (149 + n) input);
    }
      ≡ p
    → (encode_invitation_envelope p.canonical_header p.encapsulation p.ciphertext p.signature
        ≡ ok input)
      × IsEnvelope p
      × (length input ≡ 213 + ciphertext_bytes p.authority.padding_class)
from_slices input a p n bytes parsed count k l same =
    let q : ParsedInvitationEnvelopeV1 = record {
      authority = a;
      canonical_header = take 115 input;
      encapsulation = take 32 (drop 115 input);
      ciphertext = take n (drop 149 input);
      signature = take 64 (drop (149 + n) input);
    } in
    let ct_length : length q.ciphertext ≡ n =
      length-take n (drop 149 input) (rw (length-drop 149 input) (omega (arith, l))) in
    let w : IsEnvelope q = record {
      header_length = length-take 115 input (omega (arith, l));
      header_parsed = parsed;
      encapsulation_length =
          length-take 32 (drop 115 input) (rw (length-drop 115 input) (omega (arith, l)));
      ciphertext_length = ct_length ∙ k;
      signature_length =
          length-take 64 (drop (149 + n) input)
            (rw (length-drop (149 + n) input) (omega (arith, l)));
    } in
    let joined : envelope_bytes q ≡ input =
      ap
        (λ (t : ℕ).
          q.canonical_header
          ++ (q.encapsulation ++ (to_be_bytes 2 t ++ (q.ciphertext ++ q.signature))))
        ct_length
      ∙ envelope_of_slices input n bytes count l in
    subst
      (λ r.
        (encode_invitation_envelope r.canonical_header r.encapsulation r.ciphertext r.signature
          ≡ ok input)
        × IsEnvelope r
        × (length input ≡ 213 + ciphertext_bytes r.authority.padding_class))
      same (encode-IsEnvelope q w ∙ ap ok joined, w, omega (arith, l, k))

-- Bytes are read as an envelope only if they are its encoding; its parts have their lengths, and the
-- whole is 741, 1,253 or 2,277 bytes, as its padding class says.
pub parse_invitation_envelope-eq-ok :
    (input : Bytes) (p : ParsedInvitationEnvelopeV1)
    → All IsByte input
    → parse_invitation_envelope input ≡ ok p
    → (encode_invitation_envelope p.canonical_header p.encapsulation p.ciphertext p.signature
        ≡ ok input)
      × IsEnvelope p
      × (length input ≡ 213 + ciphertext_bytes p.authority.padding_class)
unfolding parse_invitation_envelope
parse_invitation_envelope-eq-ok input p bytes h =
    let (_, h1) = >>-eq-ok (guard (not (ltb 4096 (length input))) bounds_exceeded) _ h in
    let (_, h2) =
      >>-eq-ok
        (guard (not (ltb 2277 (length input) || ltb (length input) 213)) non_canonical_encoding) _
        h1 in
    let (a, parsed, h3) = >>=-eq-ok (parse_invitation_header (take 115 input)) _ h2 in
    let n = from_be_bytes (take 2 (drop 147 input)) in
    let (same, h4) =
      >>-eq-ok (guard (n == ciphertext_bytes a.padding_class) non_canonical_encoding) _ h3 in
    let (whole, h5) = >>-eq-ok (guard (149 + n + 64 == length input) non_canonical_encoding) _ h4 in
    let k : n ≡ ciphertext_bytes a.padding_class =
      (==_iff n (ciphertext_bytes a.padding_class)).0 (guard-eq-ok _ _ same) in
    let l : 149 + n + 64 ≡ length input =
      (==_iff (149 + n + 64) (length input)).0 (guard-eq-ok _ _ whole) in
    from_slices input a p n bytes parsed refl k (omega (arith, l)) (ok_injective h5)
