-- ===== src/Strings.antt =====
-- The strings of the kernel, src/kernel/util/strings.c, and the archive with its services,
-- src/kernel/memory/tar.c. A pointer into memory is the list of the bytes from there on; all that
-- lies behind the end of the list is zero.
pub mod Archive
pub mod Equals
mod Tests
use honey_os.Base.{
  ℕ, zero, suc, ◌+◌, ◌-◌, ◌*◌, ◌/◌, ◌%◌, ◌^◌, Bool, true, false, Option, none, some, List, [], ◌∷◌,
  ◌++◌, ◌==◌, if◌then◌else◌, drop, leb, ltb,
}

-- `*string`
abbrev pub char_at : List ℕ → ℕ
char_at [] = 0
char_at (c ∷ string) = c

-- The characters in front of the zero.
unfoldable pub text_at : List ℕ → List ℕ
text_at [] = []
text_at (c ∷ string) = let rest = text_at string in if c == 0 then [] else c ∷ rest

-- `stringEquals`; that it first compares the pointers does not change its result.
unfoldable pub string_equals : List ℕ → List ℕ → Bool
string_equals [] string2 = char_at string2 == 0
string_equals (c ∷ string1) string2 =
    let rest = string_equals string1 (drop 1 string2) in
    if c == 0 then char_at string2 == 0 else if c == char_at string2 then rest else false

-- `strlen`, the loop from `size` on. NULL is the empty list.
unfoldable pub strlen_from : (size : ℕ) → List ℕ → ℕ
strlen_from size [] = size
strlen_from size (c ∷ string) =
    let rest = strlen_from ((size + 1) % 2 ^ 32) string in if c == 0 then size else rest

unfoldable pub strlen : List ℕ → ℕ
unfolding strlen_from
strlen string = strlen_from 0 string

-- One loop of `combineStrings`: the characters in front of the zero, and `behind` behind them.
unfoldable pub copy_chars : List ℕ → (behind : List ℕ) → List ℕ
copy_chars [] behind = behind
copy_chars (c ∷ string) behind =
    let rest = copy_chars string behind in if c == 0 then behind else c ∷ rest

-- `combineStrings`
unfoldable pub combine_strings : (string1 string2 : List ℕ) → List ℕ
unfolding copy_chars
combine_strings string1 string2 = copy_chars string1 (copy_chars string2 (0 ∷ []))

-- `readOctal`, the loop from `result` on. A byte from 128 on is a negative `char`.
unfoldable pub read_octal_from : (result : ℕ) → List ℕ → ℕ
read_octal_from result [] = result
read_octal_from result (c ∷ string) =
    let digit = if ltb c 128 then 2 ^ 32 + c - 48 else 2 ^ 32 + c - 256 - 48 in
    let rest = read_octal_from ((result + digit) % 2 ^ 32 * 8 % 2 ^ 32) string in
    if c == 0 then result else rest

unfoldable pub read_octal : List ℕ → ℕ
unfolding read_octal_from
read_octal string = read_octal_from 0 string

-- The loop of `findTarFile` from `position` on, which is counted from `fileData`. The size of the file
-- is read there too and not used.
unfoldable pub find_tar_loop :
    (fuel position tar_file_size : ℕ) → (memory file_name : List ℕ) → Option ℕ
find_tar_loop zero position tar_file_size memory file_name = none
find_tar_loop (suc fuel) position tar_file_size memory file_name =
    let later = find_tar_loop fuel (position + 512) tar_file_size memory file_name in
    if leb position tar_file_size
    then if string_equals (drop position memory) file_name then some (position + 512) else later
    else none

-- `findTarFile`: where the file starts behind its header, `none` for NULL. A round takes 512 bytes.
unfoldable pub find_tar_file : (memory : List ℕ) → (tar_file_size : ℕ) → List ℕ → Option ℕ
unfolding find_tar_loop
find_tar_file memory tar_file_size file_name =
    find_tar_loop (tar_file_size / 512 + 1) 0 tar_file_size memory file_name
