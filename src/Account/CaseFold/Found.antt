-- ===== src/Account/CaseFold/Found.antt =====
-- `default_case_fold` of rust/src/api/account_envelope/invitation.rs finds the row of a character by
-- binary search.
use openmls_dart.Prelude.{ℕ, ◌+◌, ◌≤◌, ◌<◌, ◌≡◌, ◌⊎◌, true, some, List, [], ◌∷◌, length, ok, err}
use openmls_dart.Account.CaseFold.Order.{ascending, RowAt}
use openmls_dart.Account.CaseFold.Search.{search_loop, binary_search}
use openmls_dart.Account.CaseFold.{find_fold}

module _ (rows : List (ℕ × List ℕ)) (key : ℕ) (sorted : ascending 0 rows ≡ true) where
  -- The key stands at no place from `base` on, `size` many, but at `b`.
  abbrev OnlyAt : ℕ → ℕ → ℕ → Type 0
  OnlyAt size base b =
      (i : ℕ) (cs : List ℕ) → RowAt rows i key cs → base ≤ i → i < base + size → i ≡ b

  abbrev Ends : ℕ → ℕ → ℕ → Type 0
  Ends fuel size base =
      (b : ℕ) × (search_loop rows key fuel size base ≡ some b)
      × (b < length rows)
      × OnlyAt size base b

-- The outcome of a search for the fold of a character.
abbrev pub Finds : List (ℕ × List ℕ) → ℕ → Type 0
Finds rows c =
    ((i : ℕ) × (cs : List ℕ) × RowAt rows i c cs
      × (binary_search rows c ≡ some (ok i))
      × (find_fold rows c ≡ some cs))
    ⊎ (((i : ℕ) (cs : List ℕ) → ¬ RowAt rows i c cs)
        × ((i : ℕ) × (binary_search rows c ≡ some (err i)))
        × (find_fold rows c ≡ some (c ∷ [])))
