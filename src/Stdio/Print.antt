-- ===== src/Stdio/Print.antt =====
-- The format strings of src/hlib/stdio.c. A text is the list of its characters in front of the
-- terminating zero; `string_at` gives the text behind a pointer.
pub mod Insert
pub mod Pieces
pub mod Size
use honey_os.Base.{
  ℕ, zero, suc, ◌+◌, ◌%◌, ◌^◌, Bool, List, [], ◌∷◌, ◌++◌, Option, none, some, ltb, ◌==◌, ◌>>=◌,
  if◌then◌else◌, length, drop,
}
use honey_os.Stdio.{put_hex, hex_length, put_int, int_length}

-- `putPadding`, with `n` rounds of its loop left.
abbrev pub spaces : ℕ → List ℕ
spaces zero = []
spaces (suc n) = b' ' ∷ spaces n

unfoldable pub put_padding : ℕ → List ℕ
put_padding x = spaces (if ltb x 10 then x else 10)

module _ (string_at : ℕ → List ℕ) where
  -- `getInsertLength`
  unfoldable pub get_insert_length : (insert_type x : ℕ) → ℕ
  unfolding hex_length int_length
  get_insert_length insert_type x =
      if insert_type == b's'
      then length (string_at x)
      else if insert_type == b'x'
      then hex_length x
      else if insert_type == b'c'
      then 1
      else if insert_type == b'i'
      then int_length x + (if ltb x (2 ^ 31) then 0 else 1)
      else if insert_type == b'p'
      then x
      else 0

  -- `handleInsert`
  unfoldable pub handle_insert : (insert_type x : ℕ) → List ℕ
  unfolding put_hex put_int put_padding
  handle_insert insert_type x =
      if insert_type == b's'
      then string_at x
      else if insert_type == b'x'
      then put_hex x
      else if insert_type == b'c'
      then (x % 256) ∷ []
      else if insert_type == b'i'
      then put_int x
      else if insert_type == b'p'
      then put_padding x
      else []

  -- The loop of `_sprintf` with the arguments that are left; `none` where it takes more arguments than
  -- there are, or reads behind the format.
  unfoldable pub sprintf_loop : (format arguments : List ℕ) → Option (List ℕ)
  unfolding handle_insert
  sprintf_loop [] arguments = some []
  sprintf_loop (c ∷ []) arguments = if c == b'%' then none else some (c ∷ [])
  sprintf_loop (c ∷ t ∷ format) [] =
      let plain = sprintf_loop (t ∷ format) [] >>= λ rest. some (c ∷ rest) in
      if c == b'%' then none else plain
  sprintf_loop (c ∷ t ∷ format) (x ∷ arguments) =
      let inserted = sprintf_loop format arguments >>= λ rest. some (handle_insert t x ++ rest) in
      let plain = sprintf_loop (t ∷ format) (x ∷ arguments) >>= λ rest. some (c ∷ rest) in
      if c == b'%' then inserted else plain

  -- The loop of `printfSize` at position `size`; `left` is the format from there on, none where the
  -- position lies behind its terminating zero.
  unfoldable pub printf_size_loop : (fuel : ℕ) (format arguments : List ℕ) (size : ℕ) → Option ℕ
  unfolding get_insert_length
  printf_size_loop zero format arguments size = none
  printf_size_loop (suc fuel) format arguments size =
      let plain = printf_size_loop fuel format arguments ((size + 1) % 2 ^ 32) in
      let inserted : Option ℕ = elim (drop (size + 1) format) [
        | [] ↦ none
        | t ∷ behind ↦ elim arguments [
          | [] ↦ none
          | x ∷ others ↦
              printf_size_loop fuel format others ((size + 1 + get_insert_length t x + 1) % 2 ^ 32)
        ]
      ] in
      if ltb (length format) size then none else elim (drop size format) [
        | [] ↦ some size
        | c ∷ behind ↦ if c == b'%' then inserted else plain
      ]

-- `_sprintf`, without the zero behind the text.
unfoldable pub sprintf : (string_at : ℕ → List ℕ) (format arguments : List ℕ) → Option (List ℕ)
unfolding sprintf_loop
sprintf string_at format arguments = sprintf_loop string_at format arguments

-- `printfSize`; a format of `n` characters takes at most `n + 1` rounds where no number wraps.
unfoldable pub printf_size : (string_at : ℕ → List ℕ) (format arguments : List ℕ) → Option ℕ
unfolding printf_size_loop
printf_size string_at format arguments =
    printf_size_loop string_at (length format + 1) format arguments 0
