-- ===== src/Lists/Laws.antt =====
-- The lists behave as queues: what is added last is found last.
use honey_os.Base.{
  ℕ, zero, suc, ◌+◌, ◌%◌, ◌^◌, ◌<◌, ◌≡◌, refl, ap, ◌∙◌, List, [], ◌∷◌, ◌++◌, ◌==◌, if◌then◌else◌,
  length, arith,
}
use honey_os.Lists.{list_add, list_count_from, list_count, list_get, list_remove_value}

-- `listAdd` appends.
pub list_add-append : (list : List ℕ) (value : ℕ) → list_add list value ≡ list ++ value ∷ []
unfolding list_add
list_add-append [] value = refl
list_add-append (x ∷ list) value = ap (λ l. x ∷ l) (list_add-append list value)

pub list_add-behind :
    (list rest : List ℕ) (value : ℕ) → list_add list value ++ rest ≡ list ++ value ∷ rest
unfolding list_add
list_add-behind [] rest value = refl
list_add-behind (x ∷ list) rest value = ap (λ l. x ∷ l) (list_add-behind list rest value)

length-list_add : (list : List ℕ) (value : ℕ) → length (list_add list value) ≡ suc (length list)
unfolding list_add
length-list_add [] value = refl
length-list_add (x ∷ list) value = ap suc (length-list_add list value)

list_count_from-length :
    (i : ℕ) (list : List ℕ) → i + length list < 2 ^ 32 → list_count_from i list ≡ i + length list
unfolding list_count_from
list_count_from-length i [] h = omega arith
list_count_from-length i (x ∷ list) h =
    let e : (i + 1) % 2 ^ 32 ≡ i + 1 = omega arith in
    rw e (list_count_from-length (i + 1) list (omega arith) ∙ omega arith)

list_count-length : (list : List ℕ) → length list < 2 ^ 32 → list_count list ≡ length list
unfolding list_count
list_count-length list h = list_count_from-length 0 list (omega arith) ∙ omega arith

list_get_by_position :
    (list : List ℕ) (value position : ℕ)
    → list_get (list_add list value) position
      ≡ (if position == length list then value else list_get list position)
unfolding list_get list_add
list_get_by_position [] value zero = refl
list_get_by_position [] value (suc position) = ground arith
list_get_by_position (x ∷ list) value zero = ground arith
list_get_by_position (x ∷ list) value (suc position) =
    list_get_by_position list value position ∙ ground arith

-- In a list of less than 2^32 - 1 elements, a value that is added is found by `listGet` at the position that `listCount` gave before, and every element before it where it was.
list_get-list_add :
    (list : List ℕ) (value position : ℕ)
    → length list + 1 < 2 ^ 32
    → list_get (list_add list value) position
      ≡ (if position == list_count list then value else list_get list position)
list_get-list_add list value position h =
    rw (list_count-length list (omega arith)) (list_get_by_position list value position)

-- How often a value stands in a list.
abbrev pub count_of : List ℕ → ℕ → ℕ
count_of [] value = 0
count_of (x ∷ list) value = if x == value then suc (count_of list value) else count_of list value

pub count_of-append :
    (xs ys : List ℕ) (value : ℕ) → count_of (xs ++ ys) value ≡ count_of xs value + count_of ys value
count_of-append [] ys value = omega arith
count_of-append (x ∷ xs) ys value = ground (arith, count_of-append xs ys value)

-- `listRemoveValue` takes one occurrence of its value away if there is one, says whether there was, and leaves the occurrences of every other value.
list_remove_value-count_of :
    (list : List ℕ) (value other : ℕ)
    → count_of list other ≡ (
        if (list_remove_value list value).0
        then if value == other
          then suc (count_of (list_remove_value list value).1 other)
          else count_of (list_remove_value list value).1 other
        else count_of (list_remove_value list value).1 other)
unfolding list_remove_value
list_remove_value-count_of [] value other = refl
list_remove_value-count_of (x ∷ list) value other =
    ground (arith, list_remove_value-count_of list value other)
