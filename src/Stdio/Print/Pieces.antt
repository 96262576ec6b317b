-- ===== src/Stdio/Print/Pieces.antt =====
-- Formats by their pieces: what `_sprintf` writes for them, and what `printfSize` computes.
use honey_os.Base.{ℕ, ◌≡◌, ◌∙◌, refl, false, List, [], ◌∷◌, ◌++◌, some, ◌==◌, ◌>>=◌}
use honey_os.Stdio.Print.{handle_insert, sprintf_loop, sprintf}

-- A format consists of plain characters and of insertions of an argument.
pub data Piece : Type 0 where
  plain : (c : ℕ) → Piece
  insertion : (insert_type argument : ℕ) → Piece

abbrev pub IsWritten : List Piece → Type 0
IsWritten [] = Unit
IsWritten (plain c ∷ pieces) = ((c == b'%') ≡ false) × IsWritten pieces
IsWritten (insertion t x ∷ pieces) = IsWritten pieces

abbrev pub format_of : List Piece → List ℕ
format_of [] = []
format_of (plain c ∷ pieces) = c ∷ format_of pieces
format_of (insertion t x ∷ pieces) = b'%' ∷ t ∷ format_of pieces

abbrev pub arguments_of : List Piece → List ℕ
arguments_of [] = []
arguments_of (plain c ∷ pieces) = arguments_of pieces
arguments_of (insertion t x ∷ pieces) = x ∷ arguments_of pieces

module _ (string_at : ℕ → List ℕ) where
  abbrev pub rendered : List Piece → List ℕ
  rendered [] = []
  rendered (plain c ∷ pieces) = c ∷ rendered pieces
  rendered (insertion t x ∷ pieces) = handle_insert string_at t x ++ rendered pieces

  -- A plain character in front is written as it is.
  sprintf_loop-plain :
      (c : ℕ) (format arguments : List ℕ)
      → (c == b'%') ≡ false
      → sprintf_loop string_at (c ∷ format) arguments
        ≡ (sprintf_loop string_at format arguments >>= λ rest. some (c ∷ rest))
  unfolding sprintf_loop
  sprintf_loop-plain c [] arguments e = rw e refl
  sprintf_loop-plain c (t ∷ format) [] e = rw e refl
  sprintf_loop-plain c (t ∷ format) (x ∷ arguments) e = rw e refl

  sprintf_loop-rendered :
      (pieces : List Piece) (more : List ℕ)
      → IsWritten pieces
      → sprintf_loop string_at (format_of pieces) (arguments_of pieces ++ more)
        ≡ some (rendered pieces)
  unfolding sprintf_loop
  sprintf_loop-rendered [] more h = refl
  sprintf_loop-rendered (plain c ∷ pieces) more h =
      sprintf_loop-plain c (format_of pieces) (arguments_of pieces ++ more) h.0
      ∙ rw (sprintf_loop-rendered pieces more h.1) refl
  sprintf_loop-rendered (insertion t x ∷ pieces) more h =
      rw (sprintf_loop-rendered pieces more h) refl

-- The text of a format whose pieces are known is that of the pieces, one after the other, where the arguments of the insertions stand in front; arguments that are left over change nothing.
pub sprintf-rendered :
    (string_at : ℕ → List ℕ) (pieces : List Piece) (more : List ℕ)
    → IsWritten pieces
    → sprintf string_at (format_of pieces) (arguments_of pieces ++ more)
      ≡ some (rendered string_at pieces)
unfolding sprintf
sprintf-rendered string_at pieces more h = sprintf_loop-rendered string_at pieces more h
