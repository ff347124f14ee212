-- ===== src/Account/Invitation/PreviewCursor.antt =====
-- The `PreviewCursor` of rust/src/api/account_envelope/invitation.rs, and the first pass of
-- `decode_canonical_preview` with it. A range of the input is the bytes in it.
use openmls_dart.Prelude.{
  ℕ, zero, suc, not, ◌||◌, Option, none, some, List, [], ◌∷◌, length, take, drop, Bytes, leb, ltb,
  ◌==◌, from_be_bytes, ok, err, ok_or, if◌then◌else◌,
}
use openmls_dart.Account.Types.{plaintext_schema_invalid}
use openmls_dart.Account.Text.{from_utf8}
use openmls_dart.Account.Cursor.{Reader, ◌>>=◌, ◌>>◌, pure, lift, check, remaining, is_finished}

abbrev pub invitation_inner_max_bytes : ℕ
invitation_inner_max_bytes = 1817

abbrev pub invitation_title_max_code_points : ℕ
invitation_title_max_code_points = 120

abbrev pub invitation_title_max_bytes : ℕ
invitation_title_max_bytes = 512

abbrev pub invitation_tag_max_count : ℕ
invitation_tag_max_count = 10

abbrev pub invitation_tag_max_code_points : ℕ
invitation_tag_max_code_points = 32

abbrev pub invitation_tag_max_bytes : ℕ
invitation_tag_max_bytes = 128

unfoldable pub preview_bytes : ℕ → Reader Bytes
preview_bytes n input =
    if leb n (length input) then ok (take n input, drop n input) else err plaintext_schema_invalid

unfoldable pub preview_u8 : Reader ℕ
preview_u8 = do bytes ← preview_bytes 1; pure (from_be_bytes bytes)

unfoldable pub read_string_range : ℕ → ℕ → Reader Bytes
read_string_range max_code_points max_bytes = do
  length_bytes ← preview_bytes 2
  check (not (from_be_bytes length_bytes == 0 || ltb max_bytes (from_be_bytes length_bytes)))
      plaintext_schema_invalid
  bytes ← preview_bytes (from_be_bytes length_bytes)
  value ← lift (ok_or (from_utf8 bytes) plaintext_schema_invalid)
  check (not (ltb max_code_points (length value))) plaintext_schema_invalid
  pure bytes

-- The `match` on the byte before the title.
unfoldable pub read_title : ℕ → Reader (Option Bytes)
read_title flag =
    if flag == 0
    then pure none
    else if flag == 1
    then (do
      bytes ← read_string_range invitation_title_max_code_points invitation_title_max_bytes
      pure (some bytes))
    else lift (err plaintext_schema_invalid)

unfoldable pub read_tags : ℕ → Reader (List Bytes)
read_tags zero = pure []
read_tags (suc count) = do
  bytes ← read_string_range invitation_tag_max_code_points invitation_tag_max_bytes
  rest ← read_tags count
  pure (bytes ∷ rest)

unfoldable pub read_ranges : Reader (Option Bytes × List Bytes)
read_ranges = do
  flag ← preview_u8
  title ← read_title flag
  tag_count ← preview_u8
  check (not (ltb invitation_tag_max_count tag_count)) plaintext_schema_invalid
  tags ← read_tags tag_count
  rest ← remaining
  check (is_finished rest) plaintext_schema_invalid
  pure (title, tags)
