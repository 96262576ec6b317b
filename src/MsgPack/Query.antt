-- ===== src/MsgPack/Query.antt =====
-- The map queries of src/hlib/msgPack: `msgPackMapGetFromString` of string.c and
-- `msgPackMapGetFromInt` of integer.c. The outer `none` is a read behind the end of the buffer or the
-- end of the fuel of `msgPackSeek`, the inner one NULL.
pub mod Prefix
use honey_os.Base.{
  ℕ, zero, suc, ◌+◌, ◌%◌, ◌^◌, Bool, true, false, Option, none, some, List, [], ◌∷◌, ◌==◌,
  if◌then◌else◌, ◌>>=◌,
}
use honey_os.Base.Bytes.{read8}
use honey_os.Base.Int.{ℤ, pos, negsuc}
use honey_os.MsgPack.Format.{format_info, initialize_flat_buffers}
use honey_os.MsgPack.Integer.{is_integer, read_int}
use honey_os.MsgPack.Text.{is_string, read_str}
use honey_os.MsgPack.Sequence.{is_map, read_map_size}
use honey_os.MsgPack.Seek.{seek}

-- The loop that compares a key with the characters of `searchValue`, which alone decide its length.
-- The key ends in a zero, which differs from each of them.
unfoldable pub matches_key : (key wanted : List ℕ) → Bool
matches_key key [] = true
matches_key [] (c ∷ wanted) = false
matches_key (k ∷ key) (c ∷ wanted) = if k == c then matches_key key wanted else false

-- Two calls of `msgPackSeek`: over a key and its value.
unfoldable pub seek_pair : ℕ → List ℕ → Option (List ℕ)
seek_pair fuel element = do value ← seek fuel element; seek fuel value

-- `element` behind the step that skips a pair whose key has another type.
unfoldable pub skip_other : ℕ → Bool → List ℕ → Option (List ℕ)
unfolding seek_pair
skip_other fuel expected element = if expected then some element else seek_pair fuel element

-- The comparison with the result of `msgPackReadStr`: NULL is read only for a first character.
unfoldable pub compare_key : (key : Option (List ℕ)) (wanted : List ℕ) → Option Bool
unfolding matches_key
compare_key none [] = some true
compare_key none (c ∷ wanted) = none
compare_key (some key) wanted = some (matches_key key wanted)

-- The loop over the pairs of `msgPackMapGetFromString`, `n` rounds.
unfoldable pub string_pairs : ℕ → (n : ℕ) → (wanted element : List ℕ) → Option (Option (List ℕ))
unfolding skip_other initialize_flat_buffers format_info compare_key
string_pairs fuel zero wanted element = some none
string_pairs fuel (suc n) wanted element = do
  first ← read8 element 0
  element' ←
      skip_other fuel (is_string (format_info (initialize_flat_buffers first)).data_type) element
  key ← read_str element'
  equal ← compare_key key wanted
  let value = seek fuel element' >>= λ v. some (some v)
  let rest = seek_pair fuel element' >>= λ next. string_pairs fuel n wanted next
  if equal then value else rest

-- `msgPackMapGetFromString`
unfoldable pub map_get_from_string : ℕ → (buffer wanted : List ℕ) → Option (Option (List ℕ))
unfolding string_pairs initialize_flat_buffers format_info
map_get_from_string fuel buffer wanted = do
  first ← read8 buffer 0
  let found = do
    (pairs, element) ← read_map_size buffer
    first_key ← element
    string_pairs fuel (pairs % 2 ^ 32) wanted first_key
  if is_map (format_info (initialize_flat_buffers first)).data_type then found else some none

-- `msgPackReadInt(...) == searchValue`, a comparison of 64-bit patterns.
abbrev pub equals_unsigned : ℤ → ℕ → Bool
equals_unsigned key wanted = elim key [ pos n ↦ n == wanted | negsuc n ↦ 2 ^ 64 == wanted + suc n ]

-- The loop over the pairs of `msgPackMapGetFromInt`.
unfoldable pub int_pairs : ℕ → (n wanted : ℕ) → List ℕ → Option (Option (List ℕ))
unfolding skip_other initialize_flat_buffers format_info
int_pairs fuel zero wanted element = some none
int_pairs fuel (suc n) wanted element = do
  first ← read8 element 0
  element' ←
      skip_other fuel (is_integer (format_info (initialize_flat_buffers first)).data_type) element
  key ← read_int element'
  let value = seek fuel element' >>= λ v. some (some v)
  let rest = seek_pair fuel element' >>= λ next. int_pairs fuel n wanted next
  if equals_unsigned key wanted then value else rest

-- `msgPackMapGetFromInt`
unfoldable pub map_get_from_int : ℕ → List ℕ → ℕ → Option (Option (List ℕ))
unfolding int_pairs initialize_flat_buffers format_info
map_get_from_int fuel buffer wanted = do
  first ← read8 buffer 0
  let found = do
    (pairs, element) ← read_map_size buffer
    first_key ← element
    int_pairs fuel (pairs % 2 ^ 32) wanted first_key
  if is_map (format_info (initialize_flat_buffers first)).data_type then found else some none
