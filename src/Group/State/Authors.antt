-- ===== src/Group/State/Authors.antt =====
-- `current.leaves.contains(&b.author)` in `validate` of rust/src/local_group_state.rs.
use mathlib.Core.Option.{some-injective}
use openmls_dart.Prelude.{
  ℕ, zero, suc, ◌≡◌, refl, ap, true, ==_refl, some, List, [], ◌∷◌, get_elem?, any, Bytes, bytes_eq,
  bytes_eq_refl, eq_of_bytes_eq, arith, ◌==◌, &&-eq-true, Bool-cases, inl, inr,
}
use openmls_dart.Group.Roster.{MlsRosterLeafV1}
use openmls_dart.Group.State.{leaf_eq}

-- The leaf stands in the list.
abbrev pub Holds : List MlsRosterLeafV1 → MlsRosterLeafV1 → Type 0
Holds leaves leaf = (i : ℕ) × (get_elem? leaves i ≡ some leaf)

leaf_ext :
    (i j : ℕ) (c d k l : Bytes)
    → i ≡ j
    → c ≡ d
    → k ≡ l
    → ◌≡◌ {A = MlsRosterLeafV1}
        (record { leaf_index = i; credential_identity = c; signature_public_key = k })
        (record { leaf_index = j; credential_identity = d; signature_public_key = l })
leaf_ext i j c d k l e f g = rw (e, f, g) refl

leaf_eq-eq : (a b : MlsRosterLeafV1) → leaf_eq a b ≡ true → a ≡ b
unfolding leaf_eq
leaf_eq-eq a b h =
    let (index, others) = &&-eq-true (a.leaf_index == b.leaf_index) _ h in
    let (identity, key) =
      &&-eq-true (bytes_eq a.credential_identity b.credential_identity) _ others in
    leaf_ext a.leaf_index b.leaf_index a.credential_identity b.credential_identity
      a.signature_public_key b.signature_public_key (ground arith) (eq_of_bytes_eq _ _ identity)
      (eq_of_bytes_eq _ _ key)

leaf_eq_refl : (a : MlsRosterLeafV1) → leaf_eq a a ≡ true
unfolding leaf_eq
leaf_eq_refl a =
    rw (==_refl a.leaf_index, bytes_eq_refl a.credential_identity)
      (bytes_eq_refl a.signature_public_key)

pub any-Holds :
    (leaves : List MlsRosterLeafV1) (b : MlsRosterLeafV1)
    → any (λ leaf. leaf_eq leaf b) leaves ≡ true
    → Holds leaves b
any-Holds [] b h = absurd (cc h)
any-Holds (a ∷ leaves) b h = elim (Bool-cases (leaf_eq a b)) [
  | inl same ↦ (0, ap some (leaf_eq-eq a b same))
  | inr other ↦ let (i, at) = any-Holds leaves b (rw other at h) in (suc i, at)
]

pub Holds-any :
    (leaves : List MlsRosterLeafV1) (b : MlsRosterLeafV1) (i : ℕ)
    → get_elem? leaves i ≡ some b
    → any (λ leaf. leaf_eq leaf b) leaves ≡ true
Holds-any [] b i h = absurd (cc h)
Holds-any (a ∷ leaves) b zero h = rw (some-injective _ _ h, leaf_eq_refl b) refl
Holds-any (a ∷ leaves) b (suc i) h = ground (arith, Holds-any leaves b i h)
