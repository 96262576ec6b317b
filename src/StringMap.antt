-- ===== src/StringMap.antt =====
-- The kernel's map from string ids to strings, src/kernel/stringmap/stringmap.c: a tree of eight
-- layers of sixteen pointers, indexed by the four-bit groups of a hash from the lowest on. A string
-- is the list of its characters in front of the terminating zero.
pub mod Lookup
mod Tests
use honey_os.Base.{
  ℕ, zero, suc, ◌+◌, ◌-◌, ◌*◌, ◌/◌, ◌%◌, ◌^◌, Option, none, some, List, [], ◌∷◌, ltb, if◌then◌else◌,
  update,
}

abbrev pub Text : Type 0
Text = List ℕ

-- A `MapLayer` above `n` others. The last layer holds strings; NULL is `none`.
abbrev pub MapLayer : ℕ → Type 0
MapLayer zero = ℕ → Option Text
MapLayer (suc n) = ℕ → Option (MapLayer n)

-- A layer from `malloc`, which clears what it gives.
abbrev pub empty_layer : (n : ℕ) → MapLayer n
empty_layer zero = λ i. none
empty_layer (suc n) = λ i. none

-- The layer behind a pointer, or a new one where there is none.
abbrev pub next_layer : (n : ℕ) → Option (MapLayer n) → MapLayer n
next_layer n none = empty_layer n
next_layer n (some layer) = layer

-- A `char` is signed: a byte from 128 on counts as a negative number.
abbrev pub char_value : ℕ → ℕ
char_value c = if ltb c 128 then c else 2 ^ 32 - (256 - c)

hash_from : ℕ → Text → ℕ
hash_from hash [] = hash
hash_from hash (c ∷ string) = hash_from ((257 * hash + char_value c) % 2 ^ 32) string

-- `hashString`
unfoldable pub hash_string : Text → ℕ
unfolding hash_from
hash_string string = hash_from 0 string

-- The loop of `insertString` from bit `start_bit` on, and the write behind it.
unfoldable pub insert_layers : (n start_bit hash : ℕ) → Text → MapLayer n → MapLayer n
insert_layers zero start_bit hash string layer = update layer (hash / 2 ^ 28) (some string)
insert_layers (suc n) start_bit hash string layer =
    let i = hash / 2 ^ start_bit % 16 in
    update layer i (some (insert_layers n (start_bit + 4) hash string (next_layer n (layer i))))

-- The loop of `retrieveString`, and the read behind it.
unfoldable pub retrieve_layers : (n start_bit string_id : ℕ) → MapLayer n → Option Text
retrieve_layers zero start_bit string_id layer = layer (string_id / 2 ^ 28)
retrieve_layers (suc n) start_bit string_id layer = elim (layer (string_id / 2 ^ start_bit % 16)) [
  | none ↦ none
  | some next ↦ retrieve_layers n (start_bit + 4) string_id next
]

-- The loop of `discardString`, and the write behind it.
unfoldable pub discard_layers : (n start_bit string_id : ℕ) → MapLayer n → MapLayer n
discard_layers zero start_bit string_id layer = update layer (string_id / 2 ^ 28) none
discard_layers (suc n) start_bit string_id layer = elim (layer (string_id / 2 ^ start_bit % 16)) [
  | none ↦ layer
  | some next ↦
      update layer (string_id / 2 ^ start_bit % 16)
        (some (discard_layers n (start_bit + 4) string_id next))
]

-- `rootLayer`, above seven others.
abbrev pub Root : Type 0
Root = MapLayer 7

-- `insertString`: the id, and the root.
unfoldable pub insert_string : Text → Root → ℕ × Root
unfolding insert_layers
insert_string string root =
    let hash = hash_string string in (hash, insert_layers 7 0 hash string root)

-- `retrieveString`
unfoldable pub retrieve_string : ℕ → Root → Option Text
unfolding retrieve_layers
retrieve_string string_id root = retrieve_layers 7 0 string_id root

-- `discardString`
unfoldable pub discard_string : ℕ → Root → Root
unfolding discard_layers
discard_string string_id root = discard_layers 7 0 string_id root
