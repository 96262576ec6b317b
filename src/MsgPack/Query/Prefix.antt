-- ===== src/MsgPack/Query/Prefix.antt =====
-- What `msgPackMapGetFromString` finds in an encoded map whose keys are strings.
use mathlib.Core.List.{append_assoc}
use honey_os.Base.{
  ℕ, zero, suc, ◌+◌, ◌*◌, ◌%◌, ◌^◌, ◌<◌, ◌≡◌, refl, ◌∙◌, true, Option, none, some, List, [], ◌∷◌,
  ◌++◌, arith, length, if◌then◌else◌, Bool-cases, inl, inr, ◌↔◌,
}
use honey_os.Base.Bytes.{read8}
use honey_os.MsgPack.Format.{format_info, initialize_flat_buffers}
use honey_os.MsgPack.FirstByte.{format-fixstr, format-fixmap}
use honey_os.MsgPack.Text.{is_string, string_write}
use honey_os.MsgPack.Text.RoundTrip.{
  Size, size, string_header-fix, string_header-size8, string_header-size16, string_header-size32,
  read_str-string_write,
}
use honey_os.MsgPack.Sequence.{map_write, is_map}
use honey_os.MsgPack.Sequence.RoundTrip
use honey_os.MsgPack.Sequence.RoundTrip.{Count, count, read_map_size-map_write}
use honey_os.MsgPack.Seek.{
  seek, text, dictionary, Entries, end, entry, count_entries, encode, encode_entries, size_entries,
}
use honey_os.MsgPack.Seek.Behind.{Fits, EntriesFit, seek-encode}
use honey_os.MsgPack.Query.{matches_key, seek_pair, string_pairs, map_get_from_string}

-- The comparison holds for every key that begins with the characters that are looked for.
pub matches_key_iff :
    (key wanted : List ℕ)
    → (matches_key key wanted ≡ true) ↔ ((tail : List ℕ) × (key ≡ wanted ++ tail))
unfolding matches_key
matches_key_iff key [] = (λ e. (key, refl), λ e. refl)
matches_key_iff [] (c ∷ wanted) = (λ e. cc, λ e. cc e.1)
matches_key_iff (k ∷ key) (c ∷ wanted) =
    let (forth, back) = matches_key_iff key wanted in
    (
      λ e. let (tail, f) = forth (ground arith) in (tail, ground arith),
      λ (tail, e). let f : key ≡ wanted ++ tail = cc in ground (arith, back (tail, f)),
    )

-- The keys are strings.
abbrev pub TextKeys : Entries → Type 0
TextKeys end = Unit {0}
TextKeys (entry (text s) v es) = TextKeys es
TextKeys (entry k v es) = ⊥

-- The value of the first key that begins with `wanted`, as the pointer that is returned.
pub value_at : Entries → (wanted rest : List ℕ) → Option (List ℕ)
value_at end wanted rest = none
value_at (entry (text s) v es) wanted rest =
    if matches_key s wanted
    then some (encode v ++ (encode_entries es ++ rest))
    else value_at es wanted rest
value_at (entry k v es) wanted rest = none

-- The first byte of a string is that of a string.
abbrev IsText : List ℕ → Type 0
IsText buffer =
    (b : ℕ) × (read8 buffer 0 ≡ some b)
    × (is_string (format_info (initialize_flat_buffers b)).data_type ≡ true)

string_write-IsText : (s rest : List ℕ) → Size (length s) → IsText (string_write s ++ rest)
unfolding string_write format_info initialize_flat_buffers
string_write-IsText s rest (Size.fix h) = (
  0xa0 + length s,
  rw (string_header-fix (length s) h) refl,
  rw (format-fixstr (0xa0 + length s) (omega arith) (omega arith)) refl,
)
string_write-IsText s rest (Size.size8 h k) =
    (0xd9, rw (string_header-size8 (length s) h k) refl, refl)
string_write-IsText s rest (Size.size16 h k) =
    (0xda, rw (string_header-size16 (length s) h k) refl, refl)
string_write-IsText s rest (Size.size32 h k) =
    (0xdb, rw (string_header-size32 (length s) h k) refl, refl)

module _ (fuel : ℕ) (wanted : List ℕ) where
  -- One round of the loop on a pair whose key is a string.
  string_pairs-round :
      (n : ℕ) (s value tail : List ℕ)
      → length s < 2 ^ 32
      → seek fuel (string_write s ++ (value ++ tail)) ≡ some (value ++ tail)
      → seek fuel (value ++ tail) ≡ some tail
      → string_pairs fuel (suc n) wanted (string_write s ++ (value ++ tail)) ≡ (
          if matches_key s wanted
          then some (some (value ++ tail))
          else string_pairs fuel n wanted tail)
  unfolding string_pairs seek_pair
  string_pairs-round n s value tail h k l =
      let (b, first, is) = string_write-IsText s (value ++ tail) (size (length s) h) in
      let key = read_str-string_write s (value ++ tail) h in
      rw (first) (rw (is, key) (rw (k, l) refl))

  string_pairs-zero : (element : List ℕ) → string_pairs fuel 0 wanted element ≡ some none
  unfolding string_pairs
  string_pairs-zero element = refl

  string_pairs-value_at :
      (es : Entries) (n : ℕ) (rest : List ℕ)
      → TextKeys es
      → EntriesFit es
      → n ≡ count_entries es
      → size_entries es < fuel
      → string_pairs fuel n wanted (encode_entries es ++ rest) ≡ some (value_at es wanted rest)
  unfolding value_at encode_entries size_entries
  string_pairs-value_at end zero rest keys fit e h = rw string_pairs-zero refl
  string_pairs-value_at end (suc n) rest keys fit e h = absurd (omega arith)
  string_pairs-value_at (entry (text s) v es) zero rest keys fit e h = absurd (omega arith)
  string_pairs-value_at (entry (text s) v es) (suc n) rest keys fit e h =
      let tail = encode_entries es ++ rest in
      let key_end = seek-encode (text s) fuel (encode v ++ tail) fit.0 (omega arith) in
      let value_end = seek-encode v fuel tail fit.1 (omega arith) in
      let later = string_pairs-value_at es n rest keys fit.2 (omega arith) (omega arith) in
      rw
        (
          append_assoc (string_write s) (encode v ++ encode_entries es) rest,
          append_assoc (encode v) (encode_entries es) rest,
        )
        (string_pairs-round n s (encode v) tail fit.0 key_end value_end
          ∙ elim (Bool-cases (matches_key s wanted)) [ inl b ↦ rw b refl | inr b ↦ rw b later ])
  string_pairs-value_at (entry k v es) n rest keys fit e h = absurd keys

abbrev IsMapHeader : List ℕ → Type 0
IsMapHeader buffer =
    (b : ℕ) × (read8 buffer 0 ≡ some b)
    × (is_map (format_info (initialize_flat_buffers b)).data_type ≡ true)

map_write-IsMapHeader : (n : ℕ) (rest : List ℕ) → Count n → IsMapHeader (map_write (2 * n) ++ rest)
unfolding format_info initialize_flat_buffers
map_write-IsMapHeader n rest (Count.fix h) = (
  0x80 + n,
  rw (RoundTrip.map_write-fix n h) refl,
  rw (format-fixmap (0x80 + n) (omega arith) (omega arith)) refl,
)
map_write-IsMapHeader n rest (Count.count16 h k) =
    (0xde, rw (RoundTrip.map_write-count16 n h k) refl, refl)
map_write-IsMapHeader n rest (Count.count32 h k) =
    (0xdf, rw (RoundTrip.map_write-count32 n h k) refl, refl)

-- On an encoded map whose keys are strings, with less than 128 pairs and values that
-- `msgPackSeek` can pass, `msgPackMapGetFromString` returns the place of the value of the first
-- key that begins with the string that is looked for, and NULL if no key does; fuel above the
-- size of the map is enough.
pub map_get_from_string-value_at :
    (fuel : ℕ) (es : Entries) (wanted rest : List ℕ)
    → TextKeys es
    → Fits (dictionary es)
    → size_entries es < fuel
    → map_get_from_string fuel (encode (dictionary es) ++ rest) wanted
      ≡ some (value_at es wanted rest)
unfolding map_get_from_string encode
map_get_from_string-value_at fuel es wanted rest keys fit h =
    let n = count_entries es in
    let tail = encode_entries es ++ rest in
    let (b, first, is) = map_write-IsMapHeader n tail (count n (omega arith)) in
    let read = read_map_size-map_write n tail (omega arith) in
    let found = string_pairs-value_at fuel wanted es (n % 2 ^ 32) rest keys fit.1 (omega arith) h in
    rw (append_assoc (map_write (2 * n)) (encode_entries es) rest) (rw first (rw (is, read) found))
