-- ===== src/Account/Invitation/Preview/Reading.antt =====
-- Reading the strings of a preview back, in rust/src/api/account_envelope/invitation.rs.
use openmls_dart.Prelude.{
  ℕ, ◌+◌, ◌%◌, ◌*◌, ◌≤◌, All, ◌<◌, ◌≡◌, refl, ap, sym, ◌∙◌, true, not, ◌||◌, Option, none, some,
  List, [], ◌∷◌, ◌++◌, length, all, Bytes, append-nil, append_assoc, leb, ltb, ◌==◌, arith,
  to_be_bytes, from_be_bytes, length-to_be_bytes, from-to_be_bytes, length-append, ok, guard-true,
}
use openmls_dart.Account.Types.{plaintext_schema_invalid}
use openmls_dart.Account.Text.{Chars, is_scalar, as_bytes}
use openmls_dart.Account.Text.Utf8.{from_utf8-as_bytes}
use openmls_dart.Account.Cursor.{is_finished}
use openmls_dart.Account.Invitation.Slices.{take_exact, drop_over}
use openmls_dart.Account.Invitation.PreviewCursor.{
  preview_bytes, preview_u8, read_string_range, read_title, read_tags, read_ranges,
}

preview_bytes-append :
    (n : ℕ) (xs ys : Bytes) → length xs ≡ n → preview_bytes n (xs ++ ys) ≡ ok (xs, ys)
unfolding preview_bytes
preview_bytes-append n xs ys h =
    let enough : leb n (length (xs ++ ys)) ≡ true = rw (length-append xs ys) (ground (arith, h)) in
    rw (enough, take_exact n xs ys h, drop_over n 0 n xs ys h (omega arith))

preview_u8-cons : (b : ℕ) (rest : Bytes) → preview_u8 (b ∷ rest) ≡ ok (b, rest)
unfolding preview_u8 from_be_bytes
preview_u8-cons b rest =
    let same : b * 1 + 0 ≡ b = omega arith in
    rw (preview_bytes-append 1 (b ∷ []) rest refl) (ap (λ (v : ℕ). ok (v, rest)) same)

-- A text that a string of the preview may hold.
pub record Holds (max_code_points max_bytes : ℕ) (value : Chars) : Type 0 where
  pub scalars : all is_scalar value ≡ true
  pub some_byte : 1 ≤ length (as_bytes value)
  pub few_bytes : length (as_bytes value) ≤ max_bytes
  pub few_chars : length value ≤ max_code_points

abbrev pub string_bytes : Chars → Bytes
string_bytes value = to_be_bytes 2 (length (as_bytes value)) ++ as_bytes value

in_range : (n m : ℕ) → 1 ≤ n → n ≤ m → not (n == 0 || ltb m n) ≡ true
in_range n m h g = ground arith

read_string-append :
    (max_code_points max_bytes : ℕ) (value : Chars) (rest : Bytes)
    → max_bytes < 65536
    → Holds max_code_points max_bytes value
    → read_string_range max_code_points max_bytes (string_bytes value ++ rest)
      ≡ ok (as_bytes value, rest)
unfolding read_string_range
read_string-append max_code_points max_bytes value rest m w =
    let n = length (as_bytes value) in
    let word = to_be_bytes 2 n in
    let size : from_be_bytes word ≡ n = from-to_be_bytes 2 n (omega (arith, m, w.few_bytes)) in
    rw (
      append_assoc word (as_bytes value) rest,
      preview_bytes-append 2 word (as_bytes value ++ rest) (length-to_be_bytes 2 n),
      size,
      guard-true (not (n == 0 || ltb max_bytes n)) plaintext_schema_invalid
          (in_range n max_bytes w.some_byte w.few_bytes),
      preview_bytes-append n (as_bytes value) rest refl,
      from_utf8-as_bytes value w.scalars,
      guard-true (not (ltb max_code_points (length value))) plaintext_schema_invalid
          (ground (arith, w.few_chars)),
    )

-- The texts of a preview, and what is written for them.
abbrev pub TitleHolds : Option Chars → Type 0
TitleHolds none = Unit {0}
TitleHolds (some value) = Holds 120 512 value

abbrev pub title_bytes : Option Chars → Bytes
title_bytes none = 0 ∷ []
title_bytes (some value) = 1 ∷ string_bytes value

abbrev pub title_range : Option Chars → Option Bytes
title_range none = none
title_range (some value) = some (as_bytes value)

abbrev pub tags_bytes : List Chars → Bytes
tags_bytes [] = []
tags_bytes (tag ∷ tags) = string_bytes tag ++ tags_bytes tags

abbrev pub tag_ranges : List Chars → List Bytes
tag_ranges [] = []
tag_ranges (tag ∷ tags) = as_bytes tag ∷ tag_ranges tags

read_tags-append :
    (tags : List Chars) (rest : Bytes)
    → All (Holds 32 128) tags
    → read_tags (length tags) (tags_bytes tags ++ rest) ≡ ok (tag_ranges tags, rest)
unfolding read_tags
read_tags-append [] rest w = refl
read_tags-append (tag ∷ tags) rest w = rw (
  append_assoc (string_bytes tag) (tags_bytes tags) rest,
  read_string-append 32 128 tag (tags_bytes tags ++ rest) (omega arith) w.0,
  read_tags-append tags rest w.1,
)

read_tags-whole :
    (tags : List Chars)
    → All (Holds 32 128) tags
    → read_tags (length tags) (tags_bytes tags) ≡ ok (tag_ranges tags, [])
read_tags-whole tags w =
    ap (read_tags (length tags)) (sym (append-nil (tags_bytes tags))) ∙ read_tags-append tags [] w

-- The whole of a preview.
abbrev pub preview_encoding : Option Chars → List Chars → Bytes
preview_encoding title tags = title_bytes title ++ (length tags % 256) ∷ tags_bytes tags

pub read_ranges-preview_encoding :
    (title : Option Chars) (tags : List Chars)
    → TitleHolds title
    → All (Holds 32 128) tags
    → length tags ≤ 10
    → read_ranges (preview_encoding title tags) ≡ ok ((title_range title, tag_ranges tags), [])
unfolding read_ranges read_title is_finished
read_ranges-preview_encoding none tags t w h =
    let n = length tags in
    let small : n % 256 ≡ n = omega (arith, h) in
    rw (
      preview_u8-cons 0 ((n % 256) ∷ tags_bytes tags),
      preview_u8-cons (n % 256) (tags_bytes tags),
      small,
      guard-true (not (ltb 10 n)) plaintext_schema_invalid (ground (arith, h)),
      read_tags-whole tags w,
    )
read_ranges-preview_encoding (some value) tags t w h =
    let n = length tags in
    let small : n % 256 ≡ n = omega (arith, h) in
    rw (
      preview_u8-cons 1 (string_bytes value ++ (n % 256) ∷ tags_bytes tags),
      read_string-append 120 512 value ((n % 256) ∷ tags_bytes tags) (omega arith) t,
      preview_u8-cons (n % 256) (tags_bytes tags),
      small,
      guard-true (not (ltb 10 n)) plaintext_schema_invalid (ground (arith, h)),
      read_tags-whole tags w,
    )
