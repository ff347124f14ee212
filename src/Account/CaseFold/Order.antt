-- ===== src/Account/CaseFold/Order.antt =====
-- The order of FULL_DEFAULT_CASE_FOLD in rust/src/api/account_envelope/unicode17_casefold.rs, which
-- the binary search in rust/src/api/account_envelope/invitation.rs relies on.
use mathlib.Core.Option.{some-injective}
use openmls_dart.Prelude.{
  ℕ, zero, suc, ◌+◌, ◌≤◌, ◌<◌, ◌≡◌, inl, inr, refl, sym, ap, ◌∙◌, Bool, true, ◌&&◌, some, List, [],
  ◌∷◌, length, get_elem?, leb, ltb, ◌==◌, &&-eq-true, Bool-cases, arith,
}
use openmls_dart.Account.CaseFold.From0041.{folds_from_0041}
use openmls_dart.Account.CaseFold.From01A4.{folds_from_01a4}
use openmls_dart.Account.CaseFold.From03F1.{folds_from_03f1}
use openmls_dart.Account.CaseFold.From0518.{folds_from_0518}
use openmls_dart.Account.CaseFold.From1Cb6.{folds_from_1cb6}
use openmls_dart.Account.CaseFold.From1F0F.{folds_from_1f0f}
use openmls_dart.Account.CaseFold.From2132.{folds_from_2132}
use openmls_dart.Account.CaseFold.From2Ccc.{folds_from_2ccc}
use openmls_dart.Account.CaseFold.FromAb70.{folds_from_ab70}
use openmls_dart.Account.CaseFold.From1041B.{folds_from_1041b}
use openmls_dart.Account.CaseFold.From10D5A.{folds_from_10d5a}
use openmls_dart.Account.CaseFold.{full_default_case_fold}

-- Every row is above `low` and above the row before it.
abbrev pub ascending : ℕ → List (ℕ × List ℕ) → Bool
ascending low [] = true
ascending low ((source, target) ∷ rows) = leb low source && ascending (source + 1) rows

pub table_ascending : ascending 0 full_default_case_fold ≡ true
unfolding full_default_case_fold folds_from_0041 folds_from_01a4 folds_from_03f1 folds_from_0518
    folds_from_1cb6 folds_from_1f0f folds_from_2132 folds_from_2ccc folds_from_ab70 folds_from_1041b
    folds_from_10d5a
table_ascending = refl

abbrev pub RowAt : List (ℕ × List ℕ) → ℕ → ℕ → List ℕ → Type 0
RowAt rows i c cs = get_elem? rows i ≡ some (c, cs)

row_above :
    (rows : List (ℕ × List ℕ)) (low i c : ℕ) (cs : List ℕ)
    → ascending low rows ≡ true
    → RowAt rows i c cs
    → low ≤ c
row_above [] low i c cs h r = absurd (cc r)
row_above ((source, target) ∷ rows) low zero c cs h r =
    let same : source ≡ c = ap (λ t. t.0) (some-injective _ _ r) in ground arith
row_above ((source, target) ∷ rows) low (suc i) c cs h r =
    let (bound, rest) = &&-eq-true (leb low source) (ascending (source + 1) rows) h in
    ground (arith, row_above rows (source + 1) i c cs rest r)

-- A later row is above.
rows_apart :
    (rows : List (ℕ × List ℕ)) (low i j c d : ℕ) (cs ds : List ℕ)
    → ascending low rows ≡ true
    → RowAt rows i c cs
    → RowAt rows j d ds
    → i < j
    → c < d
rows_apart [] low i j c d cs ds h r q lt = absurd (cc r)
rows_apart (row ∷ rows) low i zero c d cs ds h r q lt = absurd (omega arith)
rows_apart ((source, target) ∷ rows) low zero (suc j) c d cs ds h r q lt =
    let same : source ≡ c = ap (λ t. t.0) (some-injective _ _ r) in
    let (_, rest) = &&-eq-true (leb low source) (ascending (source + 1) rows) h in
    ground (arith, row_above rows (source + 1) j d ds rest q)
rows_apart ((source, target) ∷ rows) low (suc i) (suc j) c d cs ds h r q lt =
    let (_, rest) = &&-eq-true (leb low source) (ascending (source + 1) rows) h in
    rows_apart rows (source + 1) i j c d cs ds rest r q (omega arith)

-- A row with a character that is not above stands no later.
pub place_le :
    (rows : List (ℕ × List ℕ)) (i j c d : ℕ) (cs ds : List ℕ)
    → ascending 0 rows ≡ true
    → RowAt rows i c cs
    → RowAt rows j d ds
    → c ≤ d
    → i ≤ j
place_le rows i j c d cs ds h r q le = elim (Bool-cases (ltb j i)) [
  | inl later ↦ absurd (omega (arith, rows_apart rows 0 j i d c ds cs h q r (ground arith)))
  | inr not_later ↦ ground arith
]

pub same_place :
    (rows : List (ℕ × List ℕ)) (i c d : ℕ) (cs ds : List ℕ)
    → RowAt rows i c cs
    → RowAt rows i d ds
    → (c ≡ d) × (cs ≡ ds)
same_place rows i c d cs ds r q =
    let e = some-injective _ _ (sym r ∙ q) in (ap (λ t. t.0) e, ap (λ t. t.1) e)

pub place_lt :
    (rows : List (ℕ × List ℕ)) (i j c d : ℕ) (cs ds : List ℕ)
    → ascending 0 rows ≡ true
    → RowAt rows i c cs
    → RowAt rows j d ds
    → c < d
    → i < j
place_lt rows i j c d cs ds h r q lt =
    let le : i ≤ j = place_le rows i j c d cs ds h r q (omega arith) in
    elim (Bool-cases (i == j)) [
      | inl here ↦
          let e : i ≡ j = ground arith in
          absurd (omega (arith, (same_place rows j c d cs ds (rw e at r) q).0))
      | inr elsewhere ↦ ground arith
    ]

pub row_there :
    (rows : List (ℕ × List ℕ)) (i : ℕ)
    → i < length rows
    → (c : ℕ) × (cs : List ℕ) × RowAt rows i c cs
row_there [] i h = absurd (omega arith)
row_there ((source, target) ∷ rows) zero h = (source, target, refl)
row_there (row ∷ rows) (suc i) h = row_there rows i (omega arith)

pub row_inside :
    (rows : List (ℕ × List ℕ)) (i c : ℕ) (cs : List ℕ) → RowAt rows i c cs → i < length rows
row_inside [] i c cs r = absurd (cc r)
row_inside (row ∷ rows) zero c cs r = omega arith
row_inside (row ∷ rows) (suc i) c cs r = omega (arith, row_inside rows i c cs r)
