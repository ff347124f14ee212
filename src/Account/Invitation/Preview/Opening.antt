-- ===== src/Account/Invitation/Preview/Opening.antt =====
-- What opening makes of a preview that sealing has encoded, in
-- rust/src/api/account_envelope/invitation.rs.
use openmls_dart.Prelude.{
  ℕ, ◌+◌, ◌≤◌, ◌≡◌, refl, sym, Bool, true, not, ◌&&◌, Option, none, some, List, [], ◌∷◌, ◌++◌,
  length, all, All, Bytes, ltb, arith, ok, err, guard, guard-true, guard-eq-ok, inl, inr,
  if◌then◌else◌, ◌%◌, ◌>>=◌, ◌>>◌, >>=-eq-ok, >>-eq-ok, ok_injective, Bool-cases,
}
use mathlib.Core.Path.{subst}
use openmls_dart.Account.Types.{AccountEnvelopeResult, plaintext_schema_invalid, bounds_exceeded}
use openmls_dart.Account.Text.{Chars, as_bytes}
use openmls_dart.Account.Text.Utf8.{from_utf8-as_bytes}
use openmls_dart.Account.Invitation.Preview.{
  ContextInvitationPreviewV1, Normalization, reject_folded_duplicate_refs, write_title, write_tags,
  title_estimate, tags_estimate, normalize_title, normalize_tags, canonicalize_and_encode_preview,
  is_canonical_text, canonical_str, canonical_title, canonical_tags, decode_canonical_preview,
}
use openmls_dart.Account.Invitation.Preview.Reading.{
  Holds, TitleHolds, title_range, tag_ranges, preview_encoding, read_ranges-preview_encoding,
}
use openmls_dart.Account.Invitation.Preview.Normalized.{
  IsNormalization, IsText, TitleIsText, normalize_title-TitleHolds, normalize_tags-Holds,
  write_title-TitleHolds, write_tags-Holds, length-preview_encoding,
}

module _ (nz : Normalization) where
  -- The title and the tags after normalization.
  abbrev pub normalized :
      ContextInvitationPreviewV1 → AccountEnvelopeResult ContextInvitationPreviewV1
  normalized preview = do
    title ← normalize_title nz preview.title
    tags ← normalize_tags nz preview.tags
    ok (record { title = title; tags = tags })

  abbrev pub title_is_canonical : Option Chars → Bool
  title_is_canonical none = true
  title_is_canonical (some value) = is_canonical_text nz value

  -- Whether `canonical_str` accepts every text.
  abbrev pub is_canonical_preview : ContextInvitationPreviewV1 → Bool
  is_canonical_preview preview =
      title_is_canonical preview.title && all (is_canonical_text nz) preview.tags

  canonical_str-as_bytes :
      (n m : ℕ) (value : Chars)
      → Holds n m value
      → canonical_str nz (as_bytes value)
        ≡ (if is_canonical_text nz value then ok value else err plaintext_schema_invalid)
  unfolding canonical_str
  canonical_str-as_bytes n m value w = elim (Bool-cases (is_canonical_text nz value)) [
    | inl good ↦ rw (from_utf8-as_bytes value w.scalars, good)
    | inr bad ↦ rw (from_utf8-as_bytes value w.scalars, bad)
  ]

  canonical_title-range :
      (title : Option Chars)
      → TitleHolds title
      → canonical_title nz (title_range title)
        ≡ (if title_is_canonical title then ok title else err plaintext_schema_invalid)
  canonical_title-range none w = refl
  canonical_title-range (some value) w = elim (Bool-cases (is_canonical_text nz value)) [
    | inl good ↦ rw (canonical_str-as_bytes 120 512 value w, good)
    | inr bad ↦ rw (canonical_str-as_bytes 120 512 value w, bad)
  ]

  canonical_tags-ranges :
      (tags : List Chars)
      → All (Holds 32 128) tags
      → canonical_tags nz (tag_ranges tags)
        ≡ (if all (is_canonical_text nz) tags then ok tags else err plaintext_schema_invalid)
  canonical_tags-ranges [] w = refl
  canonical_tags-ranges (tag ∷ tags) w = elim (Bool-cases (is_canonical_text nz tag)) [
    | inr bad ↦ rw (canonical_str-as_bytes 32 128 tag w.0, bad)
    | inl good ↦ elim (Bool-cases (all (is_canonical_text nz) tags)) [
      | inl rest ↦
          rw (canonical_str-as_bytes 32 128 tag w.0, good, canonical_tags-ranges tags w.1, rest)
      | inr bad ↦
          rw (canonical_str-as_bytes 32 128 tag w.0, good, canonical_tags-ranges tags w.1, bad)
    ]
  ]

  -- What a successful encoding has found of the normalized preview.
  pub record Encodes (preview : ContextInvitationPreviewV1) (bytes : Bytes) : Type 0 where
    pub n : ContextInvitationPreviewV1
    pub is_normalized : normalized preview ≡ ok n
    pub title_holds : TitleHolds n.title
    pub tags_hold : All (Holds 32 128) n.tags
    pub few_tags : length n.tags ≤ 10
    pub no_duplicates : reject_folded_duplicate_refs n.tags ≡ ok tt
    pub small : length bytes ≤ 1817
    pub encoded : bytes ≡ preview_encoding n.title n.tags

  Encodes-of :
      (preview : ContextInvitationPreviewV1) (bytes : Bytes) (title : Option Chars)
      (tags : List Chars)
      → normalize_title nz preview.title ≡ ok title
      → normalize_tags nz preview.tags ≡ ok tags
      → TitleHolds title
      → All (Holds 32 128) tags × (length tags ≡ length preview.tags)
      → length preview.tags ≤ 10
      → reject_folded_duplicate_refs tags ≡ ok tt
      → tags_estimate (2 + title_estimate title) tags ≤ 1817
      → (write_title title >>= λ first.
          write_tags tags >>= λ rest. ok (first ++ (length tags % 256) ∷ rest))
        ≡ ok bytes
      → Encodes preview bytes
  Encodes-of preview bytes title tags title_normal tags_normal t w few unique estimate h =
      let encoded : preview_encoding title tags ≡ bytes =
        ok_injective (rw (write_title-TitleHolds title t, write_tags-Holds tags w.0) at h) in
      record {
        n = record { title = title; tags = tags };
        is_normalized = rw (title_normal, tags_normal);
        title_holds = t;
        tags_hold = w.0;
        few_tags = omega (arith, w.1, few);
        no_duplicates = unique;
        small =
            subst (λ t. length t ≤ 1817) encoded (rw (length-preview_encoding title tags) estimate);
        encoded = sym encoded;
      }

  pub canonicalize-Encodes :
      (preview : ContextInvitationPreviewV1) (bytes : Bytes)
      → IsNormalization nz
      → TitleIsText preview.title
      → All IsText preview.tags
      → canonicalize_and_encode_preview nz preview ≡ ok bytes
      → Encodes preview bytes
  unfolding canonicalize_and_encode_preview
  canonicalize-Encodes preview bytes lawful tt_text tags_text h =
      let (few, h1) = >>-eq-ok (guard (not (ltb 10 (length preview.tags))) bounds_exceeded) _ h in
      let f = guard-eq-ok (not (ltb 10 (length preview.tags))) bounds_exceeded few in
      let (title, title_normal, h2) = >>=-eq-ok (normalize_title nz preview.title) _ h1 in
      let (tags, tags_normal, h3) = >>=-eq-ok (normalize_tags nz preview.tags) _ h2 in
      let (unique, h4) = >>-eq-ok (reject_folded_duplicate_refs tags) _ h3 in
      let estimate = tags_estimate (2 + title_estimate title) tags in
      let (fits, h5) = >>-eq-ok (guard (not (ltb 1817 estimate)) bounds_exceeded) _ h4 in
      let e = guard-eq-ok (not (ltb 1817 estimate)) bounds_exceeded fits in
      Encodes-of preview bytes title tags title_normal tags_normal
        (normalize_title-TitleHolds nz lawful preview.title title tt_text title_normal)
        (normalize_tags-Holds nz lawful preview.tags tags tags_text tags_normal) (ground arith)
        unique (ground arith) h5

  validated :
      (n : ContextInvitationPreviewV1)
      → reject_folded_duplicate_refs n.tags ≡ ok tt
      → ((if title_is_canonical n.title then ok n.title else err plaintext_schema_invalid)
          >>= λ title.
              (if all (is_canonical_text nz) n.tags
                then ok n.tags
                else err plaintext_schema_invalid)
              >>= λ tags.
                  reject_folded_duplicate_refs tags >> ok (record { title = title; tags = tags }))
        ≡ (if is_canonical_preview n then ok n else err plaintext_schema_invalid)
  validated n unique = elim (Bool-cases (title_is_canonical n.title)) [
    | inr bad ↦ rw bad
    | inl good ↦ elim (Bool-cases (all (is_canonical_text nz) n.tags)) [
      | inr bad ↦ rw (good, bad)
      | inl rest ↦ rw (good, rest, unique)
    ]
  ]

  -- A preview of texts that sealing encodes is opened as its normalized form exactly if `canonical_str`
  -- accepts every text of that form, and is refused as an invalid plaintext otherwise; the
  -- normalization is one that gives texts for texts, and none that is empty for one that is not.
  pub decode-canonicalize_preview :
      (preview : ContextInvitationPreviewV1) (bytes : Bytes)
      → IsNormalization nz
      → TitleIsText preview.title
      → All IsText preview.tags
      → canonicalize_and_encode_preview nz preview ≡ ok bytes
      → (n : ContextInvitationPreviewV1) × (normalized preview ≡ ok n)
        × (decode_canonical_preview nz bytes
            ≡ (if is_canonical_preview n then ok n else err plaintext_schema_invalid))
  unfolding decode_canonical_preview
  decode-canonicalize_preview preview bytes lawful tt_text tags_text h =
      let w = canonicalize-Encodes preview bytes lawful tt_text tags_text h in
      (
        w.n,
        w.is_normalized,
        rw
            (
              guard-true (not (ltb 1817 (length bytes))) plaintext_schema_invalid
                  (ground (arith, w.small)),
              w.encoded,
              read_ranges-preview_encoding w.n.title w.n.tags w.title_holds w.tags_hold w.few_tags,
              canonical_title-range w.n.title w.title_holds,
              canonical_tags-ranges w.n.tags w.tags_hold,
            )
            (validated w.n w.no_duplicates),
      )
