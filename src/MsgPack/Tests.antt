-- ===== src/MsgPack/Tests.antt =====
-- The encoder and decoder of src/hlib/msgPack on values like those that the services exchange.
use honey_os.Base.{ℕ, ◌-◌, ◌^◌, ◌≡◌, none, some, List, [], ◌∷◌, ◌++◌, arith, ◌↔◌, length, ◌<◌}
use honey_os.Base.Int.{signed32}
use honey_os.MsgPack.Integer.{signed, integer_length, integer_write, read_int}
use honey_os.MsgPack.Integer.RoundTrip.{Survives, read_int-integer_write}
use honey_os.MsgPack.Integer.Length.{IsShort, integer_length-IsShort}
use honey_os.MsgPack.Text.{string_write, read_str}
use honey_os.MsgPack.Text.RoundTrip.{read_str-string_write}
use honey_os.MsgPack.Seek.{
  text, dictionary, Entries, end, entry, encode, seek, seek_loop, size, size_entries,
}
use honey_os.MsgPack.Seek.Behind.{seek-encode, seek_loop-endless}
use honey_os.MsgPack.Query.{map_get_from_string}
use honey_os.MsgPack.Query.Prefix.{value_at, map_get_from_string-value_at}

-- "key"
abbrev key : List ℕ
key = 107 ∷ 101 ∷ 121 ∷ []

-- {"key": "key"}
abbrev record_of_one : Entries
record_of_one = entry (text key) (text key) end

read_int-integer_write_example :
    (read_int (integer_write (2 ^ 32 - 300) signed ++ []) ≡ some (signed32 (2 ^ 32 - 300)))
    ↔ Survives (2 ^ 32 - 300)
read_int-integer_write_example = read_int-integer_write (2 ^ 32 - 300) [] (omega arith)

integer_length-IsShort_example :
    (integer_length (2 ^ 32 - 200) signed < length (integer_write (2 ^ 32 - 200) signed))
    ↔ IsShort (2 ^ 32 - 200)
integer_length-IsShort_example = integer_length-IsShort (2 ^ 32 - 200) (omega arith)

read_str-string_write_example : read_str (string_write key ++ []) ≡ some (some key)
read_str-string_write_example = read_str-string_write key [] (omega arith)

seek-encode_example : seek 10 (encode (dictionary record_of_one) ++ key) ≡ some key
unfolding size
seek-encode_example =
    seek-encode (dictionary record_of_one) 10 key (omega arith, (omega arith, omega arith, tt))
      (omega arith)

seek_loop-endless_example : seek_loop (seek 5) 1000 0 256 (encode (text key)) ≡ none
seek_loop-endless_example =
    seek_loop-endless (seek 5) 1000 0 256 (encode (text key)) (omega arith) (omega arith)

map_get_from_string-value_at_example :
    map_get_from_string 10 (encode (dictionary record_of_one) ++ []) (107 ∷ [])
    ≡ some (value_at record_of_one (107 ∷ []) [])
unfolding size_entries
map_get_from_string-value_at_example =
    map_get_from_string-value_at 10 record_of_one (107 ∷ []) [] tt
      (omega arith, (omega arith, omega arith, tt)) (omega arith)
