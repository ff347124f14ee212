-- ===== src/Account/CaseFold.antt =====
-- Case folding: rust/src/api/account_envelope/unicode17_casefold.rs and `default_case_fold` of
-- rust/src/api/account_envelope/invitation.rs.
pub mod Search
pub mod Order
pub mod Found
pub mod From0041
pub mod From01A4
pub mod From03F1
pub mod From0518
pub mod From1Cb6
pub mod From1F0F
pub mod From2132
pub mod From2Ccc
pub mod FromAb70
pub mod From1041B
pub mod From10D5A
use openmls_dart.Prelude.{ℕ, Option, none, some, List, [], ◌∷◌, ◌++◌, get_elem?, Result, ok, err}
use openmls_dart.Account.Text.{Chars}
use openmls_dart.Account.CaseFold.Search.{binary_search}
use openmls_dart.Account.CaseFold.From0041.{folds_from_0041}
use openmls_dart.Account.CaseFold.From01A4.{folds_from_01a4}
use openmls_dart.Account.CaseFold.From03F1.{folds_from_03f1}
use openmls_dart.Account.CaseFold.From0518.{folds_from_0518}
use openmls_dart.Account.CaseFold.From1Cb6.{folds_from_1cb6}
use openmls_dart.Account.CaseFold.From1F0F.{folds_from_1f0f}
use openmls_dart.Account.CaseFold.From2132.{folds_from_2132}
use openmls_dart.Account.CaseFold.From2Ccc.{folds_from_2ccc}
use openmls_dart.Account.CaseFold.FromAb70.{folds_from_ab70}
use openmls_dart.Account.CaseFold.From1041B.{folds_from_1041b}
use openmls_dart.Account.CaseFold.From10D5A.{folds_from_10d5a}

-- The table, a character with what it folds to.
unfoldable pub full_default_case_fold : List (ℕ × List ℕ)
full_default_case_fold =
    folds_from_0041
    ++ (folds_from_01a4
        ++ (folds_from_03f1
            ++ (folds_from_0518
                ++ (folds_from_1cb6
                    ++ (folds_from_1f0f
                        ++ (folds_from_2132
                            ++ (folds_from_2ccc
                                ++ (folds_from_ab70
                                    ++ (folds_from_1041b ++ (folds_from_10d5a))))))))))

-- What a character is replaced by: the target of the row that is found, or the character itself. The
-- cases with `none` are panics.
abbrev pub replacement : List (ℕ × List ℕ) → ℕ → Option (Result ℕ ℕ) → Option Chars
replacement rows character none = none
replacement rows character (some (ok index)) = elim (get_elem? rows index) [
  | none ↦ none
  | some row ↦ some row.1
]
replacement rows character (some (err _)) = some (character ∷ [])

unfoldable pub find_fold : List (ℕ × List ℕ) → ℕ → Option Chars
find_fold rows character = replacement rows character (binary_search rows character)

-- A panic of the search stands for the character itself here.
unfoldable pub fold_character : ℕ → Chars
fold_character character = elim (find_fold full_default_case_fold character) [
  | none ↦ character ∷ []
  | some target ↦ target
]

unfoldable pub default_case_fold : Chars → Chars
default_case_fold [] = []
default_case_fold (character ∷ input) = fold_character character ++ default_case_fold input
