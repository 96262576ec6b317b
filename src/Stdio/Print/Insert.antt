-- ===== src/Stdio/Print/Insert.antt =====
-- The room that `getInsertLength` of src/hlib/stdio.c computes for an insertion.
use honey_os.Base.{
  ℕ, zero, suc, ◌+◌, ◌%◌, ◌^◌, ◌<◌, ◌≤◌, ◌≡◌, Bool, true, false, List, [], ◌∷◌, ltb, ◌==◌,
  if◌then◌else◌, length, arith,
}
use honey_os.Stdio.{put_hex, hex_length, put_int, int_length}
use honey_os.Stdio.Room.{length-put_hex, length-put_int}
use honey_os.Stdio.Print.{spaces, put_padding, get_insert_length, handle_insert}

length-spaces : (n : ℕ) → length (spaces n) ≡ n
length-spaces zero = omega arith
length-spaces (suc n) = omega (arith, length-spaces n)

length-put_padding : (x : ℕ) → length (put_padding x) ≤ x
unfolding put_padding
length-put_padding x = ground (arith, length-spaces x, length-spaces 10)

length-if :
    (b : Bool) (xs ys : List ℕ) (m n : ℕ)
    → length xs ≤ m
    → length ys ≤ n
    → length (if b then xs else ys) ≤ (if b then m else n)
length-if true xs ys m n h k = h
length-if false xs ys m n h k = k

-- For each kind of insertion and each 32-bit argument, `handleInsert` writes at most as many characters as `getInsertLength` computes.
pub length-handle_insert :
    (string_at : ℕ → List ℕ) (t x : ℕ)
    → x < 2 ^ 32
    → length (handle_insert string_at t x) ≤ get_insert_length string_at t x
unfolding handle_insert get_insert_length
length-handle_insert string_at t x h =
    length-if (t == b's') (string_at x) _ (length (string_at x)) _ (omega arith) (
      length-if (t == b'x') (put_hex x) _ (hex_length x) _ (length-put_hex x) (
        length-if (t == b'c') ((x % 256) ∷ []) _ 1 _ (omega arith) (
          length-if (t == b'i') (put_int x) _ (int_length x + (if ltb x (2 ^ 31) then 0 else 1)) _
            (length-put_int x h)
            (length-if (t == b'p') (put_padding x) [] x 0 (length-put_padding x) (omega arith)))))
