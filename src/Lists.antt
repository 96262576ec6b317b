-- ===== src/Lists.antt =====
-- The singly linked lists of src/kernel/util/list.c and src/hlib/list.c. The list that a pointer
-- leads to is the list of its data; NULL is the empty list. The two files differ in `listGet` only,
-- where the one of the library reads behind NULL.
pub mod Laws
use honey_os.Base.{
  ℕ, zero, suc, ◌+◌, ◌%◌, ◌^◌, Bool, true, false, Option, none, some, List, [], ◌∷◌, ◌==◌,
  if◌then◌else◌,
}

-- `listAdd`
unfoldable pub list_add : List ℕ → ℕ → List ℕ
list_add [] value = value ∷ []
list_add (x ∷ list) value = x ∷ list_add list value

-- `listPopFirst`: the value, NULL for an empty list, and the list that is left.
unfoldable pub list_pop_first : List ℕ → ℕ × List ℕ
list_pop_first [] = (0, [])
list_pop_first (x ∷ list) = (x, list)

-- `listCount`, the rounds from counter `i` on.
unfoldable pub list_count_from : ℕ → List ℕ → ℕ
list_count_from i [] = i
list_count_from i (x ∷ list) = list_count_from ((i + 1) % 2 ^ 32) list

unfoldable pub list_count : List ℕ → ℕ
unfolding list_count_from
list_count list = list_count_from 0 list

-- `listGet` of the kernel: NULL behind the end.
unfoldable pub list_get : List ℕ → ℕ → ℕ
list_get [] position = 0
list_get (x ∷ list) zero = x
list_get (x ∷ list) (suc position) = list_get list position

-- `listGet` of the library: no result behind the end.
unfoldable pub list_get_unchecked : List ℕ → ℕ → Option ℕ
list_get_unchecked [] position = none
list_get_unchecked (x ∷ list) zero = some x
list_get_unchecked (x ∷ list) (suc position) = list_get_unchecked list position

-- `listRemoveValue`: whether the value was there, and the list that is left.
unfoldable pub list_remove_value : List ℕ → ℕ → Bool × List ℕ
list_remove_value [] value = (false, [])
list_remove_value (x ∷ list) value =
    let (found, rest) = list_remove_value list value in
    if x == value then (true, list) else (found, x ∷ rest)
