-- ===== src/Strings/Tests.antt =====
-- A string with something behind its zero, and an image of two blocks.
use honey_os.Base.{ℕ, zero, suc, ◌+◌, ◌*◌, ◌≡◌, ◌↔◌, refl, true, some, List, [], ◌∷◌, ◌++◌}
use honey_os.Strings.Equals.{string_equals_iff}
use honey_os.Strings.{text_at, string_equals, read_octal, find_tar_loop, find_tar_file}
use honey_os.Strings.Archive.{IsFirst, find_tar_file_iff}

abbrev name : List ℕ
name = 97 ∷ 98 ∷ 0 ∷ 5 ∷ []

string_equals_iff_example :
    (string_equals name (97 ∷ 98 ∷ []) ≡ true) ↔ (text_at name ≡ text_at (97 ∷ 98 ∷ []))
string_equals_iff_example = string_equals_iff name (97 ∷ 98 ∷ [])

-- The digits 17 are read as eight times their octal value.
read_octal-shifted : read_octal (49 ∷ 55 ∷ 0 ∷ []) ≡ 8 * 15
unfolding read_octal
read_octal-shifted = refl

abbrev zeros : ℕ → List ℕ
zeros zero = []
zeros (suc n) = 0 ∷ zeros n

-- A block with the name "b", then one with the name "ab".
abbrev image : List ℕ
image = 98 ∷ zeros 511 ++ name

find_tar_file-second : find_tar_file image 1024 name ≡ some 1024
unfolding find_tar_file find_tar_loop string_equals
find_tar_file-second = refl

find_tar_file_iff_example :
    (find_tar_file image 1024 name ≡ some 1024)
    ↔ (i : ℕ) × (1024 ≡ i * 512 + 512) × IsFirst image name 1024 0 i
find_tar_file_iff_example = find_tar_file_iff image 1024 name 1024
