-- ===== src/Account/Invitation/Preview.antt =====
-- The preview inside an invitation: its codec in rust/src/api/account_envelope/invitation.rs. A
-- range of the input is the bytes in it. The normalization of Unicode texts is a parameter.
pub mod Reading
pub mod Normalized
pub mod Opening
use openmls_dart.Prelude.{
  ℕ, zero, suc, ◌+◌, ◌%◌, Bool, true, false, not, ◌||◌, ◌&&◌, Option, none, some, List, [], ◌∷◌,
  ◌++◌, length, take, drop, any, Bytes, bytes_eq, leb, ltb, ◌==◌, to_be_bytes, from_be_bytes,
  Result, ok, err, guard, ok_or, if◌then◌else◌, ◌>>=◌, ◌>>◌,
}
use openmls_dart.Account.Types.{
  AccountEnvelopeErrorCodeV1, AccountEnvelopeResult, plaintext_schema_invalid, bounds_exceeded,
}
use openmls_dart.Account.Text.{Chars, as_bytes, from_utf8}
use openmls_dart.Account.CaseFold.{default_case_fold}
use openmls_dart.Account.Invitation.PreviewCursor.{
  invitation_inner_max_bytes, invitation_title_max_code_points, invitation_title_max_bytes,
  invitation_tag_max_count, invitation_tag_max_code_points, invitation_tag_max_bytes, read_ranges,
}

pub record ContextInvitationPreviewV1 : Type 0 where
  pub title : Option Chars
  pub tags : List Chars

-- The crate `unicode_normalization`: `nfc`, and whether `is_nfc_quick` answers `Yes`.
pub record Normalization : Type 0 where
  pub nfc : Chars → Chars
  pub is_nfc_quick : Chars → Bool

unfoldable pub is_unicode_17_white_space : ℕ → Bool
is_unicode_17_white_space c =
    (leb 9 c && leb c 13)
    || (c == 32
        || (c == 133
            || (c == 160
                || (c == 5760
                    || ((leb 8192 c && leb c 8202)
                        || (c == 8232
                            || (c == 8233 || (c == 8239 || (c == 8287 || c == 12288)))))))))

abbrev pub is_empty : Chars → Bool
is_empty [] = true
is_empty (c ∷ cs) = false

unfoldable pub trim_start : Chars → Chars
trim_start [] = []
trim_start (c ∷ cs) =
    let rest = trim_start cs in if is_unicode_17_white_space c then rest else c ∷ cs

unfoldable pub trim_end : Chars → Chars
trim_end [] = []
trim_end (c ∷ cs) =
    let rest = trim_end cs in if is_unicode_17_white_space c && is_empty rest then [] else c ∷ rest

abbrev pub starts_with_space : Chars → Bool
starts_with_space [] = false
starts_with_space (c ∷ cs) = is_unicode_17_white_space c

abbrev pub ends_with_space : Chars → Bool
ends_with_space [] = false
ends_with_space (c ∷ []) = is_unicode_17_white_space c
ends_with_space (c ∷ d ∷ cs) = ends_with_space (d ∷ cs)

-- The loop over the values, with what was folded so far.
unfoldable pub reject_folded : List Chars → List Chars → AccountEnvelopeResult (Unit {0})
reject_folded folded [] = ok tt
reject_folded folded (value ∷ values) =
    guard (not (any (λ existing. bytes_eq existing (default_case_fold value)) folded))
      plaintext_schema_invalid
    >> reject_folded (folded ++ default_case_fold value ∷ []) values

abbrev pub reject_folded_duplicate_refs : List Chars → AccountEnvelopeResult (Unit {0})
reject_folded_duplicate_refs values = reject_folded [] values

unfoldable pub write_bounded_string : Chars → AccountEnvelopeResult Bytes
write_bounded_string value = do
  guard (ltb (length (as_bytes value)) 65536) bounds_exceeded
  ok (to_be_bytes 2 (length (as_bytes value)) ++ as_bytes value)

abbrev pub write_title : Option Chars → AccountEnvelopeResult Bytes
write_title none = ok (0 ∷ [])
write_title (some value) = do bytes ← write_bounded_string value; ok (1 ∷ bytes)

abbrev pub write_tags : List Chars → AccountEnvelopeResult Bytes
write_tags [] = ok []
write_tags (tag ∷ tags) = do
  bytes ← write_bounded_string tag
  rest ← write_tags tags
  ok (bytes ++ rest)

abbrev pub title_estimate : Option Chars → ℕ
title_estimate none = 0
title_estimate (some value) = 2 + length (as_bytes value)

abbrev pub tags_estimate : ℕ → List Chars → ℕ
tags_estimate total [] = total
tags_estimate total (value ∷ values) = tags_estimate (total + (2 + length (as_bytes value))) values

module _ (nz : Normalization) where
  unfoldable pub normalize_bounded_text : Chars → ℕ → ℕ → AccountEnvelopeResult Chars
  normalize_bounded_text input max_code_points max_bytes = do
    let trimmed : Chars = trim_end (trim_start input)
    guard (not (is_empty trimmed)) plaintext_schema_invalid
    let normalized : Chars = nz.nfc trimmed
    guard
        (not
          (ltb max_bytes (length (as_bytes normalized)) || ltb max_code_points (length normalized)))
        bounds_exceeded
    ok normalized

  abbrev pub normalize_title : Option Chars → AccountEnvelopeResult (Option Chars)
  normalize_title none = ok none
  normalize_title (some value) = do
    title ← normalize_bounded_text value invitation_title_max_code_points invitation_title_max_bytes
    ok (some title)

  abbrev pub normalize_tags : List Chars → AccountEnvelopeResult (List Chars)
  normalize_tags [] = ok []
  normalize_tags (tag ∷ tags) = do
    first ← normalize_bounded_text tag invitation_tag_max_code_points invitation_tag_max_bytes
    rest ← normalize_tags tags
    ok (first ∷ rest)

  unfoldable pub canonicalize_and_encode_preview :
      ContextInvitationPreviewV1 → AccountEnvelopeResult Bytes
  canonicalize_and_encode_preview preview = do
    guard (not (ltb invitation_tag_max_count (length preview.tags))) bounds_exceeded
    title ← normalize_title preview.title
    tags ← normalize_tags preview.tags
    reject_folded_duplicate_refs tags
    guard (not (ltb invitation_inner_max_bytes (tags_estimate (2 + title_estimate title) tags)))
        bounds_exceeded
    title_bytes ← write_title title
    tag_bytes ← write_tags tags
    ok (title_bytes ++ (length tags % 256) ∷ tag_bytes)

  -- What `canonical_str` asks of a text.
  unfoldable pub is_canonical_text : Chars → Bool
  is_canonical_text value = not (
      is_empty value
      || (starts_with_space value || (ends_with_space value || not (nz.is_nfc_quick value))))

  unfoldable pub canonical_str : Bytes → AccountEnvelopeResult Chars
  canonical_str input = do
    value ← ok_or (from_utf8 input) plaintext_schema_invalid
    guard (is_canonical_text value) plaintext_schema_invalid
    ok value

  abbrev pub canonical_title : Option Bytes → AccountEnvelopeResult (Option Chars)
  canonical_title none = ok none
  canonical_title (some range) = do title ← canonical_str range; ok (some title)

  abbrev pub canonical_tags : List Bytes → AccountEnvelopeResult (List Chars)
  canonical_tags [] = ok []
  canonical_tags (range ∷ ranges) = do
    tag ← canonical_str range
    tags ← canonical_tags ranges
    ok (tag ∷ tags)

  unfoldable pub decode_canonical_preview : Bytes → AccountEnvelopeResult ContextInvitationPreviewV1
  decode_canonical_preview input = do
    guard (not (ltb invitation_inner_max_bytes (length input))) plaintext_schema_invalid
    ranges ← read_ranges input
    title ← canonical_title ranges.0.0
    tags ← canonical_tags ranges.0.1
    reject_folded_duplicate_refs tags
    ok (record { title = title; tags = tags })
