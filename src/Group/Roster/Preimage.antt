-- ===== src/Group/Roster/Preimage.antt =====
-- The bytes that `roster_digest` of rust/src/api/group_e2ee.rs hashes stand for one roster.
use openmls_dart.Prelude.{
  ℕ, suc, ◌^◌, ◌<◌, ◌≡◌, refl, sym, ap, ◌∙◌, String, List, [], ◌∷◌, ◌++◌, length, append_assoc,
  append-nil, All, Bytes, to_be_bytes, from_be_bytes, from-to_be_bytes, length-to_be_bytes, ltb,
  arith, Result, ok, guard, >>=-eq-ok, >>-eq-ok, guard-eq-ok,
}
use mathlib.Core.List.{append_cancel_left}
use openmls_dart.Group.Roster.{
  MlsRosterLeafV1, RosterRefusal, exceeds_encoding_limit, roster_domain_v1, checked_u32,
  hash_len_prefixed, hash_leaves, roster_preimage,
}

-- Byte strings that begin with blocks of one length, and agree, agree in the blocks and after them.
block_cancel :
    (xs ys us vs : Bytes) → length xs ≡ length ys → xs ++ us ≡ ys ++ vs → (xs ≡ ys) × (us ≡ vs)
block_cancel [] [] us vs l h = (refl, h)
block_cancel [] (y ∷ ys) us vs l h = absurd (omega arith)
block_cancel (x ∷ xs) [] us vs l h = absurd (omega arith)
block_cancel (x ∷ xs) (y ∷ ys) us vs l h =
    let (e, r) = block_cancel xs ys us vs (omega arith) (ground arith) in (ground arith, r)

word_cancel :
    (w a b : ℕ) (us vs : Bytes)
    → a < 256 ^ w
    → b < 256 ^ w
    → to_be_bytes w a ++ us ≡ to_be_bytes w b ++ vs
    → (a ≡ b) × (us ≡ vs)
word_cancel w a b us vs ha hb h =
    let (e, r) =
      block_cancel (to_be_bytes w a) (to_be_bytes w b) us vs
        (length-to_be_bytes w a ∙ sym (length-to_be_bytes w b)) h in
    (sym (from-to_be_bytes w a ha) ∙ ap from_be_bytes e ∙ from-to_be_bytes w b hb, r)

abbrev pub len_prefixed : Bytes → Bytes
len_prefixed value = to_be_bytes 4 (length value) ++ value

len_prefixed_cancel :
    (xs ys us vs : Bytes)
    → length xs < 2 ^ 32
    → length ys < 2 ^ 32
    → len_prefixed xs ++ us ≡ len_prefixed ys ++ vs
    → (xs ≡ ys) × (us ≡ vs)
len_prefixed_cancel xs ys us vs hx hy h =
    let (l, r) = word_cancel 4 (length xs) (length ys) (xs ++ us) (ys ++ vs) hx hy (
      sym (append_assoc (to_be_bytes 4 (length xs)) xs us)
      ∙ h
      ∙ append_assoc (to_be_bytes 4 (length ys)) ys vs) in
    block_cancel xs ys us vs l r

-- A leaf as the hasher gets it.
abbrev pub leaf_bytes : MlsRosterLeafV1 → Bytes
leaf_bytes leaf =
    to_be_bytes 4 leaf.leaf_index
    ++ (len_prefixed leaf.credential_identity ++ len_prefixed leaf.signature_public_key)

-- A leaf index is a `u32`.
abbrev pub HasU32Index : MlsRosterLeafV1 → Type 0
HasU32Index leaf = leaf.leaf_index < 2 ^ 32

abbrev pub leaves_bytes : List MlsRosterLeafV1 → Bytes
leaves_bytes [] = []
leaves_bytes (leaf ∷ leaves) = leaf_bytes leaf ++ leaves_bytes leaves

-- The byte strings of a leaf can be hashed.
pub record FitsLeaf (leaf : MlsRosterLeafV1) : Type 0 where
  pub identity_fits : length leaf.credential_identity < 2 ^ 32
  pub key_fits : length leaf.signature_public_key < 2 ^ 32

checked_u32-eq-ok :
    (n : ℕ) (label : String) {m : ℕ} → checked_u32 n label ≡ ok m → (n < 2 ^ 32) × (m ≡ n)
unfolding checked_u32
checked_u32-eq-ok n label h =
    let (g, e) = >>-eq-ok (guard (ltb n (2 ^ 32)) (exceeds_encoding_limit label)) _ h in
    (ground (arith, guard-eq-ok _ _ g), cc)

hash_len_prefixed-eq-ok :
    (hash value : Bytes) {out : Bytes}
    → hash_len_prefixed hash value ≡ ok out
    → (length value < 2 ^ 32) × (out ≡ hash ++ len_prefixed value)
unfolding hash_len_prefixed
hash_len_prefixed-eq-ok hash value {out} h =
    let (n, checked, e) = >>=-eq-ok (checked_u32 (length value) "byte string") _ h in
    let (fits, n_eq) = checked_u32-eq-ok (length value) "byte string" checked in
    (
      fits,
      ok_injective e
          ∙ ap (λ m. (hash ++ to_be_bytes 4 m) ++ value) n_eq
          ∙ append_assoc hash _ value,
    )
  where
    ok_injective : {a b : Bytes} → ◌≡◌ {A = Result RosterRefusal Bytes} (ok a) (ok b) → b ≡ a
    ok_injective q = cc

hash_leaves-eq-ok :
    (hash : Bytes) (leaves : List MlsRosterLeafV1) {out : Bytes}
    → hash_leaves hash leaves ≡ ok out
    → All FitsLeaf leaves × (out ≡ hash ++ leaves_bytes leaves)
unfolding hash_leaves
hash_leaves-eq-ok hash [] h = (tt, rw append-nil (cc))
hash_leaves-eq-ok hash (leaf ∷ leaves) h =
    let (with_identity, first, h') = >>=-eq-ok (hash_len_prefixed _ leaf.credential_identity) _ h in
    let (with_key, second, h'') =
      >>=-eq-ok (hash_len_prefixed with_identity leaf.signature_public_key) _ h' in
    let (id_fits, id_eq) = hash_len_prefixed-eq-ok _ leaf.credential_identity first in
    let (key_fits, key_eq) =
      hash_len_prefixed-eq-ok with_identity leaf.signature_public_key second in
    let (fits, out_eq) = hash_leaves-eq-ok with_key leaves h'' in
    (
      (record { identity_fits = id_fits; key_fits = key_fits }, fits),
      rw (out_eq, key_eq, id_eq) (simp append_assoc),
    )

-- Leaves of the same number whose bytes agree are the same leaves. Leaf indexes are `u32`.
leaves_bytes_injective :
    (xs ys : List MlsRosterLeafV1)
    → All FitsLeaf xs
    → All FitsLeaf ys
    → All HasU32Index xs
    → All HasU32Index ys
    → length xs ≡ length ys
    → leaves_bytes xs ≡ leaves_bytes ys
    → xs ≡ ys
leaves_bytes_injective [] [] fx fy ix iy l h = refl
leaves_bytes_injective [] (y ∷ ys) fx fy ix iy l h = absurd (omega arith)
leaves_bytes_injective (x ∷ xs) [] fx fy ix iy l h = absurd (omega arith)
leaves_bytes_injective (x ∷ xs) (y ∷ ys) fx fy ix iy l h =
    let (index_eq, h₁) =
      word_cancel 4 x.leaf_index y.leaf_index _ _ ix.0 iy.0 (simp append_assoc at h) in
    let (id_eq, h₂) =
      len_prefixed_cancel x.credential_identity y.credential_identity _ _ fx.0.identity_fits
        fy.0.identity_fits (simp append_assoc h₁) in
    let (key_eq, h₃) =
      len_prefixed_cancel x.signature_public_key y.signature_public_key _ _ fx.0.key_fits
        fy.0.key_fits h₂ in
    let rest : xs ≡ ys = leaves_bytes_injective xs ys fx.1 fy.1 ix.1 iy.1 (length_tail l) h₃ in
    λ i.
      record {
        leaf_index = index_eq i;
        credential_identity = id_eq i;
        signature_public_key = key_eq i;
      }
      ∷ rest i
  where
    length_tail : {n m : ℕ} → suc n ≡ suc m → n ≡ m
    length_tail e = omega arith

-- A roster as the hasher gets it.
abbrev pub roster_bytes : Bytes → ℕ → List MlsRosterLeafV1 → Bytes
roster_bytes group_id epoch leaves =
    roster_domain_v1
    ++ (len_prefixed group_id
        ++ (to_be_bytes 8 epoch ++ (to_be_bytes 4 (length leaves) ++ leaves_bytes leaves)))

-- What is hashed, and that it can be hashed.
pub record Hashes (group_id : Bytes) (epoch : ℕ) (leaves : List MlsRosterLeafV1) (out : Bytes)
    : Type 0 where
  group_fits : length group_id < 2 ^ 32
  count_fits : length leaves < 2 ^ 32
  leaves_fit : All FitsLeaf leaves
  pub bytes : out ≡ roster_bytes group_id epoch leaves

pub roster_preimage-Hashes :
    (group_id : Bytes) (epoch : ℕ) (leaves : List MlsRosterLeafV1) {out : Bytes}
    → roster_preimage group_id epoch leaves ≡ ok out
    → Hashes group_id epoch leaves out
unfolding roster_preimage
roster_preimage-Hashes group_id epoch leaves h =
    let (with_group, first, h') = >>=-eq-ok (hash_len_prefixed roster_domain_v1 group_id) _ h in
    let (n, counted, h'') = >>=-eq-ok (checked_u32 (length leaves) "roster leaf count") _ h' in
    let (group_fits, group_eq) = hash_len_prefixed-eq-ok roster_domain_v1 group_id first in
    let (count_fits, n_eq) = checked_u32-eq-ok (length leaves) "roster leaf count" counted in
    let (leaves_fit, out_eq) = hash_leaves-eq-ok _ leaves h'' in
    record {
      group_fits = group_fits;
      count_fits = count_fits;
      leaves_fit = leaves_fit;
      bytes = rw (out_eq, group_eq, n_eq) (simp append_assoc);
    }

-- Two rosters for which the digest hashes the same bytes are the same roster: group, epoch and
-- leaves agree. Epochs are `u64` and leaf indexes `u32`.
pub roster_preimage_injective :
    (g₁ g₂ : Bytes) (e₁ e₂ : ℕ) (xs ys : List MlsRosterLeafV1) (out : Bytes)
    → e₁ < 2 ^ 64
    → e₂ < 2 ^ 64
    → All HasU32Index xs
    → All HasU32Index ys
    → roster_preimage g₁ e₁ xs ≡ ok out
    → roster_preimage g₂ e₂ ys ≡ ok out
    → (g₁ ≡ g₂) × (e₁ ≡ e₂) × (xs ≡ ys)
roster_preimage_injective g₁ g₂ e₁ e₂ xs ys out b₁ b₂ ix iy p q =
    let hp = roster_preimage-Hashes g₁ e₁ xs p in
    let hq = roster_preimage-Hashes g₂ e₂ ys q in
    let (group_eq, h₁) =
      len_prefixed_cancel g₁ g₂ _ _ hp.group_fits hq.group_fits
        (append_cancel_left roster_domain_v1 _ _ (sym hp.bytes ∙ hq.bytes)) in
    let (epoch_eq, h₂) = word_cancel 8 e₁ e₂ _ _ b₁ b₂ h₁ in
    let (count_eq, h₃) = word_cancel 4 (length xs) (length ys) _ _ hp.count_fits hq.count_fits h₂ in
    (group_eq, epoch_eq, leaves_bytes_injective xs ys hp.leaves_fit hq.leaves_fit ix iy count_eq h₃)
