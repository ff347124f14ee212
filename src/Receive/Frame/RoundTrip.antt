-- ===== src/Receive/Frame/RoundTrip.antt =====
-- A receive frame of rust/src/native_receive_v1.rs: its bytes and its header are one.
use mathlib.Core.Path.{subst}
use openmls_dart.Prelude.{
  ℕ, ◌+◌, ◌-◌, ◌^◌, ◌≤◌, ◌<◌, ◌≡◌, ◌↔◌, refl, ap, sym, ◌∙◌, Bool, true, not, ◌||◌, [], ◌∷◌, ◌++◌,
  length, take, drop, All, All-take, All-drop, IsByte, Bytes, bytes_eq, eq_of_bytes_eq,
  bytes_eq_refl, ltb, ◌==◌, ==_iff, to_be_bytes, from_be_bytes, length-to_be_bytes,
  from-to_be_bytes, to-from_be_bytes, length-append, arith, ok, guard, guard-true, guard-eq-ok,
  >>-eq-ok, ok_injective,
}
use openmls_dart.Account.Invitation.Slices.{take_exact, drop_over}
use openmls_dart.Receive.Frame.{
  limit_exceeded, invalid_frame, unsupported_contract_version, frame_magic, DecodedHeader,
  frame_byte, decode_header, encode_frame_with_max,
}

-- A frame has twelve bytes of header, byte for byte.
split_frame :
    (frame : Bytes) (P : Bytes → Type 0)
    → not (ltb (length frame) 12) ≡ true
    → ((a b c d e f g h i j k l : ℕ) (rest : Bytes)
        → P (a ∷ b ∷ c ∷ d ∷ e ∷ f ∷ g ∷ h ∷ i ∷ j ∷ k ∷ l ∷ rest))
    → P frame
split_frame (a ∷ b ∷ c ∷ d ∷ e ∷ f ∷ g ∷ h ∷ i ∷ j ∷ k ∷ l ∷ rest) P m p =
    p a b c d e f g h i j k l rest
split_frame [] P m p = absurd (ground arith)
split_frame (a ∷ []) P m p = absurd (ground arith)
split_frame (a ∷ b ∷ []) P m p = absurd (ground arith)
split_frame (a ∷ b ∷ c ∷ []) P m p = absurd (ground arith)
split_frame (a ∷ b ∷ c ∷ d ∷ []) P m p = absurd (ground arith)
split_frame (a ∷ b ∷ c ∷ d ∷ e ∷ []) P m p = absurd (ground arith)
split_frame (a ∷ b ∷ c ∷ d ∷ e ∷ f ∷ []) P m p = absurd (ground arith)
split_frame (a ∷ b ∷ c ∷ d ∷ e ∷ f ∷ g ∷ []) P m p = absurd (ground arith)
split_frame (a ∷ b ∷ c ∷ d ∷ e ∷ f ∷ g ∷ h ∷ []) P m p = absurd (ground arith)
split_frame (a ∷ b ∷ c ∷ d ∷ e ∷ f ∷ g ∷ h ∷ i ∷ []) P m p = absurd (ground arith)
split_frame (a ∷ b ∷ c ∷ d ∷ e ∷ f ∷ g ∷ h ∷ i ∷ j ∷ []) P m p = absurd (ground arith)
split_frame (a ∷ b ∷ c ∷ d ∷ e ∷ f ∷ g ∷ h ∷ i ∷ j ∷ k ∷ []) P m p = absurd (ground arith)

version : from_be_bytes (0 ∷ 1 ∷ []) ≡ 1
unfolding from_be_bytes
version = refl

-- The header, byte for byte.
abbrev framed : ℕ → Bytes → Bytes → Bytes
framed operation word payload = frame_magic ++ (0 ∷ 1 ∷ operation ∷ 0 ∷ (word ++ payload))

length-framed :
    (operation : ℕ) (word payload : Bytes)
    → length word ≡ 4
    → length (framed operation word payload) ≡ 12 + length payload
length-framed operation word payload h = rw (length-append word payload) (omega (arith, h))

long_enough : (n m : ℕ) → n ≡ 12 + m → not (ltb n 12 || not true) ≡ true
long_enough n m h = ground arith

decode_parts :
    (frame payload : Bytes) (operation maximum : ℕ)
    → length frame ≡ 12 + length payload
    → 12 + length payload ≤ maximum
    → take 4 frame ≡ frame_magic
    → from_be_bytes (take 2 (drop 4 frame)) ≡ 1
    → frame_byte frame 6 ≡ operation
    → frame_byte frame 7 ≡ 0
    → from_be_bytes (take 4 (drop 8 frame)) ≡ length payload
    → drop 12 frame ≡ payload
    → decode_header frame maximum ≡ ok (record { operation = operation; payload = payload })
unfolding decode_header
decode_parts frame payload operation maximum size fits magic version kind zero_byte count rest =
    rw (
      guard-true (not (ltb maximum (length frame))) limit_exceeded (ground (arith, size, fits)),
      magic,
      bytes_eq_refl frame_magic,
      guard-true (not (ltb (length frame) 12 || not true)) invalid_frame
          (long_enough (length frame) (length payload) size),
      version,
      zero_byte,
      count,
      guard-true (length payload == length frame - 12) invalid_frame
          ((==_iff (length payload) (length frame - 12)).1 (omega (arith, size))),
      kind,
      rest,
    )

decode-framed :
    (operation maximum : ℕ) (word payload : Bytes)
    → length word ≡ 4
    → from_be_bytes word ≡ length payload
    → 12 + length payload ≤ maximum
    → decode_header (framed operation word payload) maximum
      ≡ ok (record { operation = operation; payload = payload })
decode-framed operation maximum word payload four count fits =
    decode_parts (framed operation word payload) payload operation maximum
      (length-framed operation word payload four) fits refl version refl refl
      (ap from_be_bytes (take_exact 4 word payload four) ∙ count)
      (drop_over 4 0 4 word payload four refl)

within : (n m size : ℕ) → size ≡ 12 + n → not (ltb m size) ≡ true → 12 + n ≤ m
within n m size e h = ground arith

right_of : (a b : Bool) → not (a || not b) ≡ true → b ≡ true
right_of a b h = ground arith

one_bytes : to_be_bytes 2 1 ≡ 0 ∷ 1 ∷ []
unfolding to_be_bytes
one_bytes = refl

-- What is written for a header within its bounds.
encode-framed :
    (operation maximum : ℕ) (payload : Bytes)
    → 12 + length payload ≤ maximum
    → maximum < 2 ^ 32
    → encode_frame_with_max operation payload maximum
      ≡ ok (framed operation (to_be_bytes 4 (length payload)) payload)
unfolding encode_frame_with_max
encode-framed operation maximum payload fits small = rw (
  guard-true (not (ltb maximum (12 + length payload))) limit_exceeded (ground (arith, fits)),
  guard-true (ltb (length payload) (2 ^ 32)) limit_exceeded (ground (arith, fits, small)),
  one_bytes,
)

encoded_fits :
    (operation maximum : ℕ) (payload frame : Bytes)
    → encode_frame_with_max operation payload maximum ≡ ok frame
    → 12 + length payload ≤ maximum
unfolding encode_frame_with_max
encoded_fits operation maximum payload frame h =
    let (few, _) = >>-eq-ok (guard (not (ltb maximum (12 + length payload))) limit_exceeded) _ h in
    let f = guard-eq-ok (not (ltb maximum (12 + length payload))) limit_exceeded few in ground arith

decode-encode :
    (operation maximum : ℕ) (payload frame : Bytes)
    → maximum < 2 ^ 32
    → encode_frame_with_max operation payload maximum ≡ ok frame
    → decode_header frame maximum ≡ ok (record { operation = operation; payload = payload })
decode-encode operation maximum payload frame small h =
    let fits = encoded_fits operation maximum payload frame h in
    let n = length payload in
    let same : framed operation (to_be_bytes 4 n) payload ≡ frame =
      ok_injective (sym (encode-framed operation maximum payload fits small) ∙ h) in
    ap (λ t. decode_header t maximum) (sym same)
    ∙ decode-framed operation maximum (to_be_bytes 4 n) payload (length-to_be_bytes 4 n)
        (from-to_be_bytes 4 n (omega (arith, fits, small))) fits

word_of :
    (word : Bytes) (w n : ℕ)
    → All IsByte word
    → length word ≡ w
    → from_be_bytes word ≡ n
    → to_be_bytes w n ≡ word
word_of word w n bytes size value =
    ap (λ (v : ℕ). to_be_bytes w v) (sym value)
    ∙ (ap (λ (k : ℕ). to_be_bytes k (from_be_bytes word)) (sym size) ∙ to-from_be_bytes word bytes)

encode-decode_at :
    (maximum : ℕ) (h : DecodedHeader) (a b c d e f g z i j k l : ℕ) (rest : Bytes)
    → maximum < 2 ^ 32
    → All IsByte (a ∷ b ∷ c ∷ d ∷ e ∷ f ∷ g ∷ z ∷ i ∷ j ∷ k ∷ l ∷ rest)
    → decode_header (a ∷ b ∷ c ∷ d ∷ e ∷ f ∷ g ∷ z ∷ i ∷ j ∷ k ∷ l ∷ rest) maximum ≡ ok h
    → encode_frame_with_max h.operation h.payload maximum
      ≡ ok (a ∷ b ∷ c ∷ d ∷ e ∷ f ∷ g ∷ z ∷ i ∷ j ∷ k ∷ l ∷ rest)
unfolding decode_header
encode-decode_at maximum h a b c d e f g z i j k l rest small bytes r =
    let frame = a ∷ b ∷ c ∷ d ∷ e ∷ f ∷ g ∷ z ∷ i ∷ j ∷ k ∷ l ∷ rest in
    let magic = a ∷ b ∷ c ∷ d ∷ [] in
    let size = length frame in
    let (g1, r1) = >>-eq-ok (guard (not (ltb maximum size)) limit_exceeded) _ r in
    let (g2, r2) =
      >>-eq-ok (guard (not (ltb size 12 || not (bytes_eq magic frame_magic))) invalid_frame) _ r1 in
    let (g3, r3) =
      >>-eq-ok (guard (from_be_bytes (e ∷ f ∷ []) == 1) unsupported_contract_version) _ r2 in
    let (g4, r4) = >>-eq-ok (guard (z == 0) invalid_frame) _ r3 in
    let (g5, same) =
      >>-eq-ok (guard (from_be_bytes (i ∷ j ∷ k ∷ l ∷ []) == size - 12) invalid_frame) _ r4 in
    let p1 = guard-eq-ok (not (ltb maximum size)) limit_exceeded g1 in
    let p2 = guard-eq-ok (not (ltb size 12 || not (bytes_eq magic frame_magic))) invalid_frame g2 in
    let is_magic : magic ≡ frame_magic =
      eq_of_bytes_eq magic frame_magic (right_of (ltb size 12) (bytes_eq magic frame_magic) p2) in
    let is_version = (==_iff (from_be_bytes (e ∷ f ∷ [])) 1).0 (guard-eq-ok _ _ g3) in
    let is_zero : z ≡ 0 = (==_iff z 0).0 (guard-eq-ok _ _ g4) in
    let count : from_be_bytes (i ∷ j ∷ k ∷ l ∷ []) ≡ length rest =
      (==_iff (from_be_bytes (i ∷ j ∷ k ∷ l ∷ [])) (size - 12)).0 (guard-eq-ok _ _ g5)
      ∙ omega arith in
    let is_word : to_be_bytes 4 (length rest) ≡ i ∷ j ∷ k ∷ l ∷ [] =
      word_of (i ∷ j ∷ k ∷ l ∷ []) 4 (length rest)
        (All-take IsByte 4 (drop 8 frame) (All-drop IsByte 8 frame bytes)) refl count in
    let version_bytes : 0 ∷ 1 ∷ [] ≡ e ∷ f ∷ [] =
      sym one_bytes
      ∙ word_of (e ∷ f ∷ []) 2 1 (All-take IsByte 2 (drop 4 frame) (All-drop IsByte 4 frame bytes))
          refl is_version in
    let back : framed g (to_be_bytes 4 (length rest)) rest ≡ frame =
      ap (λ w. framed g w rest) is_word
      ∙ (ap (λ w. w ++ (0 ∷ 1 ∷ g ∷ 0 ∷ i ∷ j ∷ k ∷ l ∷ rest)) (sym is_magic)
          ∙ (ap (λ w. magic ++ (w ++ (g ∷ 0 ∷ i ∷ j ∷ k ∷ l ∷ rest))) version_bytes
              ∙ ap (λ (w : ℕ). a ∷ b ∷ c ∷ d ∷ e ∷ f ∷ g ∷ w ∷ i ∷ j ∷ k ∷ l ∷ rest)
                  (sym is_zero))) in
    let fits : 12 + length rest ≤ maximum = within (length rest) maximum size (omega arith) p1 in
    subst (λ (q : DecodedHeader). encode_frame_with_max q.operation q.payload maximum ≡ ok frame)
      (ok_injective same) (encode-framed g maximum rest fits small ∙ ap ok back)

left_of : (a b : Bool) → not (a || b) ≡ true → not a ≡ true
left_of a b h = ground arith

decoded_long :
    (frame : Bytes) (maximum : ℕ) (h : DecodedHeader)
    → decode_header frame maximum ≡ ok h
    → not (ltb (length frame) 12) ≡ true
unfolding decode_header
decoded_long frame maximum h r =
    let (_, r1) = >>-eq-ok (guard (not (ltb maximum (length frame))) limit_exceeded) _ r in
    let (g2, _) =
      >>-eq-ok
        (guard (not (ltb (length frame) 12 || not (bytes_eq (take 4 frame) frame_magic)))
          invalid_frame)
        _ r1 in
    left_of (ltb (length frame) 12) (not (bytes_eq (take 4 frame) frame_magic)) (guard-eq-ok _ _ g2)

encode-decode :
    (frame : Bytes) (maximum : ℕ) (h : DecodedHeader)
    → All IsByte frame
    → maximum < 2 ^ 32
    → decode_header frame maximum ≡ ok h
    → encode_frame_with_max h.operation h.payload maximum ≡ ok frame
encode-decode frame maximum h bytes small r =
    split_frame frame
      (λ t.
        All IsByte t
        → decode_header t maximum ≡ ok h
        → encode_frame_with_max h.operation h.payload maximum ≡ ok t)
      (decoded_long frame maximum h r)
      (λ a b c d e f g z i j k l rest.
        encode-decode_at maximum h a b c d e f g z i j k l rest small)
      bytes r

-- A frame within the maximum is decoded to a header exactly if it is the encoding of that header: its
-- operation and its payload, whose length is stated in it.
pub decode_header_iff :
    (frame : Bytes) (maximum : ℕ) (h : DecodedHeader)
    → All IsByte frame
    → maximum < 2 ^ 32
    → (decode_header frame maximum ≡ ok h)
      ↔ (encode_frame_with_max h.operation h.payload maximum ≡ ok frame)
decode_header_iff frame maximum h bytes small = (
  encode-decode frame maximum h bytes small,
  decode-encode h.operation maximum h.payload frame small,
)
