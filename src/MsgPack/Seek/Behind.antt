-- ===== src/MsgPack/Seek/Behind.antt =====
-- `msgPackSeek` on an encoded value stops exactly behind it.
use mathlib.Core.List.{append_assoc}
use honey_os.Base.{
  ℕ, zero, suc, ◌+◌, ◌*◌, ◌%◌, ◌^◌, ◌≤◌, ◌<◌, ◌≡◌, refl, ◌∙◌, false, Option, none, some, List, ◌++◌,
  ltb, arith, ◌>>=◌, length, lt→ltb,
}
use honey_os.MsgPack.Seek.{
  seek_loop, seek, Value, integer, text, array, dictionary, Items, nil, cons, Entries, end, entry,
  count_items, count_entries, encode, encode_items, encode_entries, size, size_items, size_entries,
}
use honey_os.MsgPack.Sequence.{array_write, map_write}
use honey_os.MsgPack.Seek.Skip.{seek-integer, seek-text, seek-array, seek-map}

-- Integers have 32 bits, strings stay below 4 GiB, arrays have less than 256 elements and maps less
-- than 128 pairs.
abbrev mutual
  pub Fits : Value → Type 0
  Fits (integer x type) = x < 2 ^ 32
  Fits (text s) = length s < 2 ^ 32
  Fits (array vs) = (count_items vs < 256) × AllFit vs
  Fits (dictionary es) = (count_entries es < 128) × EntriesFit es

  pub AllFit : Items → Type 0
  AllFit nil = Unit {0}
  AllFit (cons v vs) = Fits v × AllFit vs

  pub EntriesFit : Entries → Type 0
  EntriesFit end = Unit {0}
  EntriesFit (entry k v es) = Fits k × Fits v × EntriesFit es

count-le-size : (vs : Items) → count_items vs ≤ size_items vs
unfolding size_items
count-le-size nil = omega arith
count-le-size (cons v vs) = omega (arith, count-le-size vs)

count_entries-le-size : (es : Entries) → count_entries es * 2 ≤ size_entries es
unfolding size_entries
count_entries-le-size end = omega arith
count_entries-le-size (entry k v es) = omega (arith, count_entries-le-size es)

-- One round of the loop over the elements, and its end.
seek_loop-round :
    (next : List ℕ → Option (List ℕ)) (fuel i n : ℕ) (xs rest : List ℕ)
    → i < n
    → n < 256
    → next (xs ++ rest) ≡ some rest
    → seek_loop next (suc fuel) i n (xs ++ rest) ≡ seek_loop next fuel (i + 1) n rest
unfolding seek_loop
seek_loop-round next fuel i n xs rest h k e =
    let below : (i + 1) % 2 ^ 8 ≡ i + 1 = omega arith in
    rw (lt→ltb i n h, seek_loop) (rw (e, below) refl)

seek_loop-end :
    (next : List ℕ → Option (List ℕ)) (fuel n : ℕ) (rest : List ℕ)
    → seek_loop next (suc fuel) n n rest ≡ some rest
unfolding seek_loop
seek_loop-end next fuel n rest =
    let done : ltb n n ≡ false = ground arith in rw (done, seek_loop) refl

mutual
  unfolding encode encode_items encode_entries size size_items size_entries

  behind :
      (v : Value) (fuel : ℕ) (rest : List ℕ)
      → Fits v
      → size v < fuel
      → seek fuel (encode v ++ rest) ≡ some rest
  behind v zero rest fit h = absurd (omega arith)
  behind (integer x type) (suc fuel) rest fit h = seek-integer fuel rest x type fit
  behind (text s) (suc fuel) rest fit h = seek-text fuel s rest fit
  behind (array vs) (suc fuel) rest fit h =
      rw (append_assoc (array_write (count_items vs)) (encode_items vs) rest) (
        seek-array fuel (count_items vs) (encode_items vs ++ rest) fit.0
        ∙ behind_items vs fuel fuel 0 (count_items vs) rest fit.1 (omega arith) fit.0 (omega arith)
            (omega (arith, count-le-size vs)))
  behind (dictionary es) (suc fuel) rest fit h =
      rw (append_assoc (map_write (2 * count_entries es)) (encode_entries es) rest) (
        seek-map fuel (count_entries es) (encode_entries es ++ rest) fit.0
        ∙ behind_entries es fuel fuel 0 (count_entries es * 2) rest fit.1 (omega arith)
            (omega arith) (omega arith) (omega (arith, count_entries-le-size es)))

  behind_items :
      (vs : Items) (fuel rounds i n : ℕ) (rest : List ℕ)
      → AllFit vs
      → i + count_items vs ≡ n
      → n < 256
      → size_items vs < fuel
      → count_items vs < rounds
      → seek_loop (seek fuel) rounds i n (encode_items vs ++ rest) ≡ some rest
  behind_items vs fuel zero i n rest fit e small h k = absurd (omega arith)
  behind_items nil fuel (suc rounds) i n rest fit e small h k =
      let same : i ≡ n = omega arith in rw same (seek_loop-end (seek fuel) rounds n rest)
  behind_items (cons v vs) fuel (suc rounds) i n rest fit e small h k =
      rw (append_assoc (encode v) (encode_items vs) rest) (
        seek_loop-round (seek fuel) rounds i n (encode v) (encode_items vs ++ rest) (omega arith)
          small (behind v fuel (encode_items vs ++ rest) fit.0 (omega arith))
        ∙ behind_items vs fuel rounds (i + 1) n rest fit.1 (omega arith) small (omega arith)
            (omega arith))

  behind_entries :
      (es : Entries) (fuel rounds i n : ℕ) (rest : List ℕ)
      → EntriesFit es
      → i + count_entries es * 2 ≡ n
      → n < 256
      → size_entries es < fuel
      → count_entries es * 2 < rounds
      → seek_loop (seek fuel) rounds i n (encode_entries es ++ rest) ≡ some rest
  behind_entries es fuel zero i n rest fit e small h k = absurd (omega arith)
  behind_entries end fuel (suc rounds) i n rest fit e small h k =
      let same : i ≡ n = omega arith in rw same (seek_loop-end (seek fuel) rounds n rest)
  behind_entries (entry k v es) fuel (suc zero) i n rest fit e small h r = absurd (omega arith)
  behind_entries (entry k v es) fuel (suc (suc rounds)) i n rest fit e small h r =
      let tail = encode_entries es ++ rest in
      rw
        (
          append_assoc (encode k) (encode v ++ encode_entries es) rest,
          append_assoc (encode v) (encode_entries es) rest,
        )
        (seek_loop-round (seek fuel) (suc rounds) i n (encode k) (encode v ++ tail) (omega arith)
            small (behind k fuel (encode v ++ tail) fit.0 (omega arith))
          ∙ seek_loop-round (seek fuel) rounds (i + 1) n (encode v) tail (omega arith) small
              (behind v fuel tail fit.1 (omega arith))
          ∙ behind_entries es fuel rounds (i + 1 + 1) n rest fit.2 (omega arith) small (omega arith)
              (omega arith))

-- `msgPackSeek` on an encoded value stops exactly behind it, with any bytes that follow, for values
-- nested as deep as one likes in which every array has less than 256 elements and every map less
-- than 128 pairs; fuel above the size of the value is enough.
pub seek-encode :
    (v : Value) (fuel : ℕ) (rest : List ℕ)
    → Fits v
    → size v < fuel
    → seek fuel (encode v ++ rest) ≡ some rest
seek-encode v fuel rest fit h = behind v fuel rest fit h

bind_none :
    (o : Option (List ℕ)) (f : List ℕ → Option (List ℕ))
    → ((rest : List ℕ) → f rest ≡ none)
    → (o >>= f) ≡ none
bind_none none f h = refl
bind_none (some rest) f h = h rest

-- With 256 or more elements the counter of the loop wraps round before it reaches their number: the
-- loop never ends by its test, it only ends where an element cannot be read.
pub seek_loop-endless :
    (next : List ℕ → Option (List ℕ)) (fuel i n : ℕ) (buffer : List ℕ)
    → i < 256
    → 256 ≤ n
    → seek_loop next fuel i n buffer ≡ none
unfolding seek_loop
seek_loop-endless next zero i n buffer h k = refl
seek_loop-endless next (suc fuel) i n buffer h k =
    rw (lt→ltb i n (omega arith), seek_loop)
      (bind_none (next buffer) (λ rest. seek_loop next fuel ((i + 1) % 2 ^ 8) n rest)
        (λ rest. seek_loop-endless next fuel ((i + 1) % 2 ^ 8) n rest (omega arith) k))
