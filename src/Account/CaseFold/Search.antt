-- ===== src/Account/CaseFold/Search.antt =====
-- `slice::binary_search_by_key`, which `default_case_fold` of
-- rust/src/api/account_envelope/invitation.rs calls with the character of a row as its key.
use openmls_dart.Prelude.{
  ℕ, zero, suc, ◌+◌, ◌-◌, ◌/◌, true, false, Option, none, some, List, length, get_elem?, ltb, ◌==◌,
  if◌then◌else◌, Result, ok, err,
}

module _ (rows : List (ℕ × List ℕ)) (key : ℕ) where
  -- `while size > 1`: half of what is left goes in each round, so the length of the table is fuel
  -- enough. `none` is a read past the table, or the end of the fuel.
  unfoldable pub search_loop : ℕ → ℕ → ℕ → Option ℕ
  search_loop zero size base = none
  search_loop (suc fuel) size base = elim (ltb 1 size) [
    | false ↦ some base
    | true ↦ elim (get_elem? rows (base + size / 2)) [
      | none ↦ none
      | some row ↦
          search_loop fuel (size - size / 2) (if ltb key row.0 then base else base + size / 2)
    ]
  ]

  -- The comparison at the one place that is left.
  abbrev pub compare_at : ℕ → Option (ℕ × List ℕ) → Option (Result ℕ ℕ)
  compare_at base none = none
  compare_at base (some row) =
      some (if row.0 == key then ok base else err (if ltb row.0 key then base + 1 else base))

  abbrev pub compare_last : Option ℕ → Option (Result ℕ ℕ)
  compare_last none = none
  compare_last (some base) = compare_at base (get_elem? rows base)

  -- The place of the key, or the one where it would have to be inserted.
  unfoldable pub binary_search : Option (Result ℕ ℕ)
  binary_search =
      if length rows == 0
      then some (err 0)
      else compare_last (search_loop (length rows) (length rows) 0)
