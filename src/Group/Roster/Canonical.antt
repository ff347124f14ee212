-- ===== src/Group/Roster/Canonical.antt =====
-- What `validate_canonical_leaves` of rust/src/api/group_e2ee.rs admits.
use openmls_dart.Prelude.{
  ℕ, ◌<◌, ◌≡◌, ◌≢◌, ◌↔◌, refl, Bool, true, false, not, Option, none, some, List, [], ◌∷◌, any, All,
  Bytes, bytes_eq, bytes_eq_iff, arith, ok, guard, >>-eq-ok, guard-eq-ok,
}
use openmls_dart.Group.Roster.{
  MlsRosterLeafV1, leaves_not_ascending, duplicate_identity, duplicate_signature_key,
  at_most_previous, validate_leaves_from, validate_canonical_leaves,
}

-- A leaf is before another one, and shares neither its identity nor its signature key.
pub record Precedes (a b : MlsRosterLeafV1) : Type 0 where
  pub index_lt : a.leaf_index < b.leaf_index
  pub identity_ne : a.credential_identity ≢ b.credential_identity
  pub key_ne : a.signature_public_key ≢ b.signature_public_key

-- Every leaf precedes every later one.
abbrev pub IsCanonical : List MlsRosterLeafV1 → Type 0
IsCanonical [] = Unit
IsCanonical (leaf ∷ leaves) = All (Precedes leaf) leaves × IsCanonical leaves

-- What the loop requires of one leaf of the rest, in its own words.
record Admits (previous : Option ℕ) (ids keys : List Bytes) (leaf : MlsRosterLeafV1) : Type 0 where
  later : at_most_previous leaf.leaf_index previous ≡ false
  new_id : any (bytes_eq leaf.credential_identity) ids ≡ false
  new_key : any (bytes_eq leaf.signature_public_key) keys ≡ false

not-true : (b : Bool) → not b ≡ true → b ≡ false
not-true b h = ground arith

-- After `a` the loop admits what it admitted before and what `a` precedes.
admits_after :
    (previous : Option ℕ) (ids keys : List Bytes) (a b : MlsRosterLeafV1)
    → Admits previous ids keys a
    → Admits (some a.leaf_index) (a.credential_identity ∷ ids) (a.signature_public_key ∷ keys) b
    → Precedes a b × Admits previous ids keys b
admits_after none ids keys a b ha h = ground (
  arith,
  bytes_eq_iff b.credential_identity a.credential_identity,
  bytes_eq_iff b.signature_public_key a.signature_public_key,
)
admits_after (some i) ids keys a b ha h = ground (
  arith,
  bytes_eq_iff b.credential_identity a.credential_identity,
  bytes_eq_iff b.signature_public_key a.signature_public_key,
)

after_admits :
    (previous : Option ℕ) (ids keys : List Bytes) (a b : MlsRosterLeafV1)
    → Precedes a b
    → Admits previous ids keys b
    → Admits (some a.leaf_index) (a.credential_identity ∷ ids) (a.signature_public_key ∷ keys) b
after_admits previous ids keys a b p h = ground (
  arith,
  bytes_eq_iff b.credential_identity a.credential_identity,
  bytes_eq_iff b.signature_public_key a.signature_public_key,
)

all_admits_after :
    (previous : Option ℕ) (ids keys : List Bytes) (a : MlsRosterLeafV1) (bs : List MlsRosterLeafV1)
    → Admits previous ids keys a
    → All
        (Admits (some a.leaf_index) (a.credential_identity ∷ ids) (a.signature_public_key ∷ keys))
        bs
    → All (Precedes a) bs × All (Admits previous ids keys) bs
all_admits_after previous ids keys a [] ha h = (tt, tt)
all_admits_after previous ids keys a (b ∷ bs) ha h =
    let (p, hb) = admits_after previous ids keys a b ha h.0 in
    let (ps, hs) = all_admits_after previous ids keys a bs ha h.1 in ((p, ps), (hb, hs))

all_after_admits :
    (previous : Option ℕ) (ids keys : List Bytes) (a : MlsRosterLeafV1) (bs : List MlsRosterLeafV1)
    → All (Precedes a) bs
    → All (Admits previous ids keys) bs
    → All
        (Admits (some a.leaf_index) (a.credential_identity ∷ ids) (a.signature_public_key ∷ keys))
        bs
all_after_admits previous ids keys a [] p h = tt
all_after_admits previous ids keys a (b ∷ bs) p h =
    (after_admits previous ids keys a b p.0 h.0, all_after_admits previous ids keys a bs p.1 h.1)

admitted :
    (previous : Option ℕ) (ids keys : List Bytes) (leaves : List MlsRosterLeafV1)
    → validate_leaves_from previous ids keys leaves ≡ ok tt
    → All (Admits previous ids keys) leaves × IsCanonical leaves
unfolding validate_leaves_from
admitted previous ids keys [] h = (tt, tt)
admitted previous ids keys (a ∷ bs) h =
    let (first, h') =
      >>-eq-ok (guard (not (at_most_previous a.leaf_index previous)) leaves_not_ascending) _ h in
    let (second, h'') =
      >>-eq-ok (guard (not (any (bytes_eq a.credential_identity) ids)) duplicate_identity) _ h' in
    let (third, rest) =
      >>-eq-ok (guard (not (any (bytes_eq a.signature_public_key) keys)) duplicate_signature_key) _
        h'' in
    let ha : Admits previous ids keys a = record {
      later = not-true _ (guard-eq-ok _ _ first);
      new_id = not-true _ (guard-eq-ok _ _ second);
      new_key = not-true _ (guard-eq-ok _ _ third);
    } in
    let (hs, canonical) =
      admitted (some a.leaf_index) (a.credential_identity ∷ ids) (a.signature_public_key ∷ keys) bs
        rest in
    let (ps, hs') = all_admits_after previous ids keys a bs ha hs in ((ha, hs'), (ps, canonical))

admits :
    (previous : Option ℕ) (ids keys : List Bytes) (leaves : List MlsRosterLeafV1)
    → All (Admits previous ids keys) leaves
    → IsCanonical leaves
    → validate_leaves_from previous ids keys leaves ≡ ok tt
unfolding validate_leaves_from
admits previous ids keys [] h c = refl
admits previous ids keys (a ∷ bs) h c =
    rw (h.0.later, h.0.new_id, h.0.new_key)
      (admits _ _ _ bs (all_after_admits previous ids keys a bs c.0 h.1) c.1)

admits_at_start : (leaves : List MlsRosterLeafV1) → All (Admits none [] []) leaves
admits_at_start [] = tt
admits_at_start (a ∷ bs) =
    (record { later = refl; new_id = refl; new_key = refl }, admits_at_start bs)

-- The leaves of a roster are admitted exactly if their indexes strictly ascend and no two leaves
-- share a credential identity or a signature key.
pub validate_canonical_leaves_iff :
    (leaves : List MlsRosterLeafV1)
    → (validate_canonical_leaves leaves ≡ ok tt) ↔ IsCanonical leaves
unfolding validate_canonical_leaves
validate_canonical_leaves_iff leaves =
    (λ h. (admitted none [] [] leaves h).1, admits none [] [] leaves (admits_at_start leaves))
