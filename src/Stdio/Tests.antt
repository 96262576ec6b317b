-- ===== src/Stdio/Tests.antt =====
-- Numbers and texts as `printf` writes them.
use honey_os.Base.{
  ℕ, ◌≡◌, ◌≤◌, ◌==◌, refl, none, some, List, [], ◌∷◌, ◌++◌, length, if◌then◌else◌, arith,
}
use honey_os.Stdio.Print.{get_insert_length, handle_insert, sprintf, printf_size}
use honey_os.Stdio.Print.Insert.{length-handle_insert}
use honey_os.Stdio.Print.Pieces.{
  Piece, plain, insertion, format_of, arguments_of, rendered, sprintf-rendered,
}
use honey_os.Stdio.Print.Size.{printf_size-beyond}

-- The only string that a pointer leads to is "ok".
abbrev string_at : ℕ → List ℕ
string_at pointer = if pointer == 0x1000 then b'o' ∷ b'k' ∷ [] else []

-- "<%s %i>"
abbrev pieces : List Piece
pieces = plain b'<' ∷ insertion b's' 0x1000 ∷ plain b' ' ∷ insertion b'i' 42 ∷ plain b'>' ∷ []

sprintf-pieces :
    sprintf string_at (format_of pieces) (arguments_of pieces)
    ≡ some (b'<' ∷ b'o' ∷ b'k' ∷ b' ' ∷ b'4' ∷ b'2' ∷ b'>' ∷ [])
unfolding sprintf
sprintf-pieces = refl

-- The size that is computed for "%c" and one more character is right.
printf_size-char : printf_size string_at (b'%' ∷ b'c' ∷ b'!' ∷ []) (65 ∷ []) ≡ some 3
unfolding printf_size
printf_size-char = refl

length-handle_insert_example :
    length (handle_insert string_at b'i' 300) ≤ get_insert_length string_at b'i' 300
length-handle_insert_example = length-handle_insert string_at b'i' 300 (omega arith)

sprintf-rendered_example :
    sprintf string_at (format_of pieces) (arguments_of pieces ++ 7 ∷ [])
    ≡ some (rendered string_at pieces)
sprintf-rendered_example = sprintf-rendered string_at pieces (7 ∷ []) (refl, (refl, (refl, tt)))

-- "a%s", where the string has two characters.
printf_size-beyond_example : printf_size string_at (b'a' ∷ b'%' ∷ b's' ∷ []) (0x1000 ∷ []) ≡ none
unfolding get_insert_length
printf_size-beyond_example =
    printf_size-beyond string_at (b'a' ∷ []) b's' 0x1000 [] [] (refl, tt) (omega arith)
      (omega arith)
