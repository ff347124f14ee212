-- ===== src/Account/Text/Utf8.antt =====
-- The UTF-8 encoding of the texts of rust/src/api/account_envelope/invitation.rs.
use openmls_dart.Prelude.{
  ℕ, suc, ◌+◌, ◌*◌, ◌/◌, ◌%◌, ◌<◌, ◌≡◌, inl, inr, refl, ap, ◌∙◌, true, ◌&&◌, Option, none, some, [],
  ◌∷◌, ◌++◌, all, Bytes, bytes_eq, bytes_eq_refl, ltb, arith, ok_or, ok_injective, &&-eq-true,
  Bool-cases, Option-cases, eq_of_bytes_eq,
}
use openmls_dart.Account.Text.{
  Chars, is_scalar, utf8_char, as_bytes, lead_byte, put_char, decode_from, exactly, from_utf8,
}

decode_from-zero : (bs : Bytes) (v : ℕ) → decode_from bs 0 v ≡ decode_from bs 0 0
unfolding decode_from
decode_from-zero [] v = refl
decode_from-zero (b ∷ bs) v = refl

continue_byte :
    (need bits x : ℕ) (t : Bytes)
    → x < 64
    → decode_from ((128 + x) ∷ t) (suc need) bits
      ≡ put_char need (bits * 64 + x) (decode_from t need (bits * 64 + x))
unfolding decode_from
continue_byte need bits x t h =
    let two : (128 + x) / 64 ≡ 2 = omega arith in
    let low : (128 + x) % 64 ≡ x = omega arith in rw (two, low) refl

decode_lead_at :
    (b need bits : ℕ) (t : Bytes)
    → lead_byte b ≡ some (need, bits)
    → decode_from (b ∷ t) 0 0 ≡ put_char need bits (decode_from t need bits)
unfolding decode_from
decode_lead_at b need bits t h = rw h refl

lead_one : (c : ℕ) → c < 128 → lead_byte c ≡ some (0, c)
unfolding lead_byte
lead_one c h = ground arith

lead_two : (c : ℕ) → c < 32 → lead_byte (192 + c) ≡ some (1, c)
unfolding lead_byte
lead_two c h = ground arith

lead_three : (c : ℕ) → c < 16 → lead_byte (224 + c) ≡ some (2, c)
unfolding lead_byte
lead_three c h = ground arith

lead_four : (c : ℕ) → c < 8 → lead_byte (240 + c) ≡ some (3, c)
unfolding lead_byte
lead_four c h = ground arith

put_char_pending : (need c : ℕ) (o : Option Chars) → put_char (suc need) c o ≡ o
put_char_pending need c none = refl
put_char_pending need c (some cs) = ground arith

-- A byte on the way, then the last one.
middle_byte :
    (need bits x : ℕ) (t : Bytes)
    → x < 64
    → decode_from ((128 + x) ∷ t) (suc (suc need)) bits ≡ decode_from t (suc need) (bits * 64 + x)
middle_byte need bits x t h = continue_byte (suc need) bits x t h ∙ put_char_pending need _ _

last_byte :
    (bits x c : ℕ) (t : Bytes)
    → x < 64
    → bits * 64 + x ≡ c
    → decode_from ((128 + x) ∷ t) 1 bits ≡ put_char 0 c (decode_from t 0 0)
last_byte bits x c t h e =
    continue_byte 0 bits x t h
    ∙ (ap (put_char 0 (bits * 64 + x)) (decode_from-zero t _)
        ∙ ap (λ (v : ℕ). put_char 0 v (decode_from t 0 0)) e)

first_byte :
    (b need bits : ℕ) (t : Bytes)
    → lead_byte b ≡ some (suc need, bits)
    → decode_from (b ∷ t) 0 0 ≡ decode_from t (suc need) bits
first_byte b need bits t h = decode_lead_at b (suc need) bits t h ∙ put_char_pending need _ _

decode_one :
    (c : ℕ) (t : Bytes) → c < 128 → decode_from (c ∷ t) 0 0 ≡ put_char 0 c (decode_from t 0 0)
decode_one c t h = decode_lead_at c 0 c t (lead_one c h) ∙ ap (put_char 0 c) (decode_from-zero t c)

decode_two :
    (c : ℕ) (t : Bytes)
    → c < 2048
    → decode_from ((192 + c / 64) ∷ (128 + c % 64) ∷ t) 0 0 ≡ put_char 0 c (decode_from t 0 0)
decode_two c t h =
    first_byte (192 + c / 64) 0 (c / 64) _ (lead_two (c / 64) (omega arith))
    ∙ last_byte (c / 64) (c % 64) c t (omega arith) (omega arith)

decode_three :
    (c : ℕ) (t : Bytes)
    → c < 65536
    → decode_from ((224 + c / 4096) ∷ (128 + c / 64 % 64) ∷ (128 + c % 64) ∷ t) 0 0
      ≡ put_char 0 c (decode_from t 0 0)
decode_three c t h =
    first_byte (224 + c / 4096) 1 (c / 4096) _ (lead_three (c / 4096) (omega arith))
    ∙ (middle_byte 0 (c / 4096) (c / 64 % 64) _ (omega arith)
        ∙ last_byte (c / 4096 * 64 + c / 64 % 64) (c % 64) c t (omega arith) (omega arith))

decode_four :
    (c : ℕ) (t : Bytes)
    → c < 1114112
    → decode_from
        ((240 + c / 262144) ∷ (128 + c / 4096 % 64) ∷ (128 + c / 64 % 64) ∷ (128 + c % 64) ∷ t)
        0
        0
      ≡ put_char 0 c (decode_from t 0 0)
decode_four c t h =
    first_byte (240 + c / 262144) 2 (c / 262144) _ (lead_four (c / 262144) (omega arith))
    ∙ (middle_byte 1 (c / 262144) (c / 4096 % 64) _ (omega arith)
        ∙ (middle_byte 0 (c / 262144 * 64 + c / 4096 % 64) (c / 64 % 64) _ (omega arith)
            ∙ last_byte ((c / 262144 * 64 + c / 4096 % 64) * 64 + c / 64 % 64) (c % 64) c t
                (omega arith) (omega arith)))

utf8_char-decode :
    (c : ℕ) (t : Bytes)
    → is_scalar c ≡ true
    → decode_from (utf8_char c ++ t) 0 0 ≡ put_char 0 c (decode_from t 0 0)
unfolding utf8_char is_scalar
utf8_char-decode c t h = elim (Bool-cases (ltb c 128)) [
  | inl one ↦ rw one (decode_one c t (ground arith))
  | inr more ↦ elim (Bool-cases (ltb c 2048)) [
    | inl two ↦ rw (more, two) (decode_two c t (ground arith))
    | inr three ↦ elim (Bool-cases (ltb c 65536)) [
      | inl short ↦ rw (more, three, short) (decode_three c t (ground arith))
      | inr long ↦ rw (more, three, long) (decode_four c t (ground arith))
    ]
  ]
]

decode_from-as_bytes :
    (cs : Chars) → all is_scalar cs ≡ true → decode_from (as_bytes cs) 0 0 ≡ some cs
unfolding decode_from
decode_from-as_bytes [] h = refl
decode_from-as_bytes (c ∷ cs) h =
    let (one, rest) = &&-eq-true (is_scalar c) (all is_scalar cs) h in
    utf8_char-decode c (as_bytes cs) one ∙ rw (decode_from-as_bytes cs rest) refl

-- The bytes of a text are read as that text.
pub from_utf8-as_bytes : (cs : Chars) → all is_scalar cs ≡ true → from_utf8 (as_bytes cs) ≡ some cs
unfolding from_utf8
from_utf8-as_bytes cs h = rw (decode_from-as_bytes cs h, h, bytes_eq_refl (as_bytes cs)) refl

exactly-eq-some :
    (input : Bytes) (ds cs : Chars)
    → exactly input (some ds) ≡ some cs
    → (as_bytes cs ≡ input) × (all is_scalar cs ≡ true)
exactly-eq-some input ds cs h =
    elim (Bool-cases (all is_scalar ds && bytes_eq (as_bytes ds) input)) [
      | inl both ↦
          let (scalars, same) = &&-eq-true (all is_scalar ds) (bytes_eq (as_bytes ds) input) both in
          let e : ds ≡ cs = ok_injective (ap (λ (o : Option Chars). ok_or o tt) (rw both at h)) in
          rw (← e) (eq_of_bytes_eq (as_bytes ds) input same, scalars)
      | inr neither ↦ absurd (cc (rw neither at h))
    ]

-- Bytes are read as a text only if they are its bytes.
pub from_utf8-eq-some :
    (input : Bytes) (cs : Chars)
    → from_utf8 input ≡ some cs
    → (as_bytes cs ≡ input) × (all is_scalar cs ≡ true)
unfolding from_utf8
from_utf8-eq-some input cs h = elim (Option-cases (decode_from input 0 0)) [
  | inl none_found ↦ absurd (cc (rw none_found at h))
  | inr (ds, found) ↦ exactly-eq-some input ds cs (rw found at h)
]
