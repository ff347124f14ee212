-- ===== src/Account/Invitation/Preview/Normalized.antt =====
-- What the texts of a preview are after `normalize_bounded_text` of
-- rust/src/api/account_envelope/invitation.rs.
use mathlib.Core.Path.{subst}
use openmls_dart.Prelude.{
  ℕ, suc, ◌+◌, ◌%◌, ◌≤◌, ◌<◌, ◌≡◌, refl, ap, true, false, not, ◌||◌, ◌&&◌, Option, none, some, List,
  [], ◌∷◌, length, all, All, ltb, arith, to_be_bytes, length-to_be_bytes, length-append, ok, guard,
  guard-true, guard-eq-ok, inl, inr, >>=-eq-ok, >>-eq-ok, ok_injective, Bool-cases, &&-eq-true,
}
use openmls_dart.Account.Types.{plaintext_schema_invalid, bounds_exceeded}
use openmls_dart.Account.Text.{Chars, is_scalar, utf8_char, as_bytes}
use openmls_dart.Account.Invitation.Preview.{
  Normalization, is_unicode_17_white_space, is_empty, trim_start, trim_end, normalize_bounded_text,
  normalize_title, normalize_tags, write_bounded_string, write_title, write_tags, title_estimate,
  tags_estimate,
}
use openmls_dart.Account.Invitation.Preview.Reading.{
  Holds, string_bytes, TitleHolds, title_bytes, tags_bytes, preview_encoding,
}

-- The characters of a `str` are scalar values.
abbrev pub IsText : Chars → Type 0
IsText cs = all is_scalar cs ≡ true

abbrev pub TitleIsText : Option Chars → Type 0
TitleIsText none = Unit {0}
TitleIsText (some value) = IsText value

-- What `nfc` is documented to do, as far as it is used: a text stays a text, and does not vanish.
pub record IsNormalization (nz : Normalization) : Type 0 where
  pub nfc_scalar : (cs : Chars) → all is_scalar cs ≡ true → all is_scalar (nz.nfc cs) ≡ true
  pub nfc_nonempty : (cs : Chars) → is_empty cs ≡ false → is_empty (nz.nfc cs) ≡ false

all_tail : (c : ℕ) (cs : Chars) → all is_scalar (c ∷ cs) ≡ true → all is_scalar cs ≡ true
all_tail c cs h = (&&-eq-true (is_scalar c) (all is_scalar cs) h).1

trim_start-scalar : (cs : Chars) → all is_scalar cs ≡ true → all is_scalar (trim_start cs) ≡ true
unfolding trim_start
trim_start-scalar [] h = refl
trim_start-scalar (c ∷ cs) h = elim (Bool-cases (is_unicode_17_white_space c)) [
  | inl space ↦ rw space (trim_start-scalar cs (all_tail c cs h))
  | inr other ↦ rw other h
]

trim_end-scalar : (cs : Chars) → all is_scalar cs ≡ true → all is_scalar (trim_end cs) ≡ true
unfolding trim_end
trim_end-scalar [] h = refl
trim_end-scalar (c ∷ cs) h =
    elim (Bool-cases (is_unicode_17_white_space c && is_empty (trim_end cs))) [
      | inl space ↦ rw space refl
      | inr other ↦ rw other (
          rw
            (
              (&&-eq-true (is_scalar c) (all is_scalar cs) h).0,
              trim_end-scalar cs (all_tail c cs h),
            )
            refl)
    ]

utf8_char-some : (c : ℕ) → 1 ≤ length (utf8_char c)
unfolding utf8_char
utf8_char-some c = elim (Bool-cases (ltb c 128)) [
  | inl one ↦ rw one (omega arith)
  | inr more ↦ elim (Bool-cases (ltb c 2048)) [
    | inl two ↦ rw (more, two) (omega arith)
    | inr three ↦ elim (Bool-cases (ltb c 65536)) [
      | inl short ↦ rw (more, three, short) (omega arith)
      | inr long ↦ rw (more, three, long) (omega arith)
    ]
  ]
]

as_bytes-some : (cs : Chars) → is_empty cs ≡ false → 1 ≤ length (as_bytes cs)
as_bytes-some [] h = absurd (cc h)
as_bytes-some (c ∷ cs) h =
    rw (length-append (utf8_char c) (as_bytes cs)) (omega (arith, utf8_char-some c))

module _ (nz : Normalization) (lawful : IsNormalization nz) where
  normalize_text-Holds :
      (input : Chars) (max_code_points max_bytes : ℕ) (value : Chars)
      → all is_scalar input ≡ true
      → normalize_bounded_text nz input max_code_points max_bytes ≡ ok value
      → Holds max_code_points max_bytes value
  unfolding normalize_bounded_text
  normalize_text-Holds input max_code_points max_bytes value s h =
      let trimmed = trim_end (trim_start input) in
      let v = nz.nfc trimmed in
      let (some_char, h1) =
        >>-eq-ok (guard (not (is_empty trimmed)) plaintext_schema_invalid) _ h in
      let (bounded, h2) =
        >>-eq-ok
          (guard (not (ltb max_bytes (length (as_bytes v)) || ltb max_code_points (length v)))
            bounds_exceeded)
          _ h1 in
      let filled = guard-eq-ok _ _ some_char in
      let b = guard-eq-ok _ _ bounded in
      let nonempty : is_empty trimmed ≡ false = ground arith in
      let w : Holds max_code_points max_bytes v = record {
        scalars = lawful.nfc_scalar trimmed (trim_end-scalar _ (trim_start-scalar input s));
        some_byte = as_bytes-some v (lawful.nfc_nonempty trimmed nonempty);
        few_bytes = ground arith;
        few_chars = ground arith;
      } in
      rw (← ok_injective h2) w

  pub normalize_title-TitleHolds :
      (input title : Option Chars)
      → TitleIsText input
      → normalize_title nz input ≡ ok title
      → TitleHolds title
  normalize_title-TitleHolds none none s h = tt
  normalize_title-TitleHolds none (some t) s h = absurd (cc h)
  normalize_title-TitleHolds (some value) title s h =
      let (t, normal, same) = >>=-eq-ok (normalize_bounded_text nz value 120 512) _ h in
      subst TitleHolds (ok_injective same) (normalize_text-Holds value 120 512 t s normal)

  pub normalize_tags-Holds :
      (input tags : List Chars)
      → All IsText input
      → normalize_tags nz input ≡ ok tags
      → All (Holds 32 128) tags × (length tags ≡ length input)
  normalize_tags-Holds [] tags s h =
      subst (λ t. All (Holds 32 128) t × (length t ≡ 0)) (ok_injective h) (tt, refl)
  normalize_tags-Holds (value ∷ values) tags s h =
      let (t, normal, h1) = >>=-eq-ok (normalize_bounded_text nz value 32 128) _ h in
      let (rest, normal_rest, same) = >>=-eq-ok (normalize_tags nz values) _ h1 in
      let (hold, count) = normalize_tags-Holds values rest s.1 normal_rest in
      subst (λ t. All (Holds 32 128) t × (length t ≡ suc (length values))) (ok_injective same)
        ((normalize_text-Holds value 32 128 t s.0 normal, hold), ap suc count)

write_string-Holds :
    (n m : ℕ) (value : Chars)
    → m < 65536
    → Holds n m value
    → write_bounded_string value ≡ ok (string_bytes value)
unfolding write_bounded_string
write_string-Holds n m value small w = rw (
    guard-true (ltb (length (as_bytes value)) 65536) bounds_exceeded
      (ground (arith, w.few_bytes, small)))

pub write_title-TitleHolds :
    (title : Option Chars) → TitleHolds title → write_title title ≡ ok (title_bytes title)
write_title-TitleHolds none w = refl
write_title-TitleHolds (some value) w = rw (write_string-Holds 120 512 value (omega arith) w)

pub write_tags-Holds :
    (tags : List Chars) → All (Holds 32 128) tags → write_tags tags ≡ ok (tags_bytes tags)
write_tags-Holds [] w = refl
write_tags-Holds (tag ∷ tags) w =
    rw (write_string-Holds 32 128 tag (omega arith) w.0, write_tags-Holds tags w.1)

length-string_bytes : (value : Chars) → length (string_bytes value) ≡ 2 + length (as_bytes value)
length-string_bytes value =
    rw
      (
        length-append (to_be_bytes 2 (length (as_bytes value))) (as_bytes value),
        length-to_be_bytes 2 (length (as_bytes value)),
      )
      refl

tags_estimate-length :
    (total : ℕ) (tags : List Chars) → tags_estimate total tags ≡ total + length (tags_bytes tags)
tags_estimate-length total [] = omega arith
tags_estimate-length total (tag ∷ tags) =
    rw (length-append (string_bytes tag) (tags_bytes tags), length-string_bytes tag)
      (omega (arith, tags_estimate-length (total + (2 + length (as_bytes tag))) tags))

title_length : (title : Option Chars) → length (title_bytes title) ≡ 1 + title_estimate title
title_length none = refl
title_length (some value) = omega (arith, length-string_bytes value)

-- The estimate is the length.
pub length-preview_encoding :
    (title : Option Chars) (tags : List Chars)
    → length (preview_encoding title tags) ≡ tags_estimate (2 + title_estimate title) tags
length-preview_encoding title tags =
    rw
      (
        length-append (title_bytes title) ((length tags % 256) ∷ tags_bytes tags),
        title_length title,
      )
      (omega (arith, tags_estimate-length (2 + title_estimate title) tags))
