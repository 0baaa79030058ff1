-- ===== src/Table.antt =====
-- src/table.c: an array of pointers with holes. An entry that is NULL is `none`, and the number of
-- entries is the length of the list.
pub mod Compact
pub mod Sweep
pub mod Entries
use miau.Prelude.{
  ℕ, zero, suc, ◌-◌, Bool, true, false, Option, none, some, List, [], ◌∷◌, ◌++◌, ltb, if◌then◌else◌,
  length, get_elem?, set, take,
}

module _ {A : Type 0} where
  -- Whether the entry is NULL. Out of range there is no entry.
  abbrev pub is_null : Option (Option A) → Bool
  is_null none = false
  is_null (some none) = true
  is_null (some (some a)) = false

  -- The loop of `table_add_item` over the first `n` entries: the last of them that is NULL.
  unfoldable pub last_null : List (Option A) → ℕ → Option ℕ
  last_null slots zero = none
  last_null slots (suc i) = if is_null (get_elem? slots i) then some i else last_null slots i

  -- Where a new entry goes.
  unfoldable pub new_index : List (Option A) → ℕ
  unfolding last_null
  new_index slots = elim (last_null slots (length slots)) [ none ↦ length slots | some i ↦ i ]

  -- The entry is given the value that the caller writes through the new pointer.
  unfoldable pub table_add_item : List (Option A) → A → List (Option A)
  unfolding last_null
  table_add_item slots a = elim (last_null slots (length slots)) [
    | none ↦ slots ++ some a ∷ []
    | some i ↦ set slots i (some a)
  ]

  -- The `while` loop of `table_compact`, with `n` entries left.
  unfoldable pub used_below : List (Option A) → ℕ → ℕ
  used_below slots zero = zero
  used_below slots (suc i) = if is_null (get_elem? slots i) then used_below slots i else suc i

  unfoldable pub table_compact : List (Option A) → List (Option A)
  unfolding used_below
  table_compact slots = take (used_below slots (length slots)) slots

  unfoldable pub table_rem_item : List (Option A) → ℕ → List (Option A)
  unfolding table_compact
  table_rem_item slots number =
      if ltb number (length slots)
      then table_compact (set slots number none)
      else table_compact slots
