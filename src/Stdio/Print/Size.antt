-- ===== src/Stdio/Print/Size.antt =====
-- Which positions `printfSize` of src/hlib/stdio.c reads: its counter is both the position in the format
-- and the size so far.
use honey_os.Base.{
  ℕ, zero, suc, ◌+◌, ◌%◌, ◌^◌, ◌<◌, ◌≡◌, ◌∙◌, ap, refl, true, false, List, [], ◌∷◌, ◌++◌, none, ltb,
  ◌==◌, length, drop, arith, length-append, drop-append,
}
use honey_os.Stdio.Print.{get_insert_length, printf_size_loop, printf_size}

abbrev pub IsPlain : List ℕ → Type 0
IsPlain [] = Unit
IsPlain (c ∷ text) = ((c == b'%') ≡ false) × IsPlain text

drop-suc {ℓ} :
    {A : Type ℓ} (i : ℕ) (xs : List A) (x : A) (ys : List A)
    → drop i xs ≡ x ∷ ys
    → drop (suc i) xs ≡ ys
drop-suc zero [] x ys e = cc
drop-suc zero (a ∷ xs) x ys e = cc
drop-suc (suc i) [] x ys e = cc
drop-suc (suc i) (a ∷ xs) x ys e = drop-suc i xs x ys e

drop-lt {ℓ} :
    {A : Type ℓ} (i : ℕ) (xs : List A) (x : A) (ys : List A) → drop i xs ≡ x ∷ ys → i < length xs
drop-lt zero [] x ys e = cc
drop-lt (suc i) [] x ys e = cc
drop-lt zero (a ∷ xs) x ys e = omega arith
drop-lt (suc i) (a ∷ xs) x ys e = omega (arith, drop-lt i xs x ys e)

module _ (string_at : ℕ → List ℕ) (format : List ℕ) (short : length format < 2 ^ 31) where
  -- A plain character takes a round.
  printf_size_loop-step :
      (c : ℕ) (behind arguments : List ℕ) (fuel i : ℕ)
      → (c == b'%') ≡ false
      → drop i format ≡ c ∷ behind
      → printf_size_loop string_at (suc fuel) format arguments i
        ≡ printf_size_loop string_at fuel format arguments (suc i)
  unfolding printf_size_loop
  printf_size_loop-step c behind arguments fuel i plain e =
      let inside = drop-lt i format c behind e in
      let test : ltb (length format) i ≡ false = ground (arith, inside) in
      let next : (i + 1) % 2 ^ 32 ≡ suc i = omega (arith, inside, short) in
      rw (test, e, plain, next) refl

  -- An insertion moves the position by the length of what is inserted.
  printf_size_loop-insertion :
      (t : ℕ) (rest : List ℕ) (x : ℕ) (arguments : List ℕ) (fuel i : ℕ)
      → drop i format ≡ b'%' ∷ t ∷ rest
      → printf_size_loop string_at (suc fuel) format (x ∷ arguments) i
        ≡ printf_size_loop string_at fuel format arguments
            ((suc i + get_insert_length string_at t x + 1) % 2 ^ 32)
  unfolding printf_size_loop
  printf_size_loop-insertion t rest x arguments fuel i e =
      let inside = drop-lt i format (b'%') (t ∷ rest) e in
      let test : ltb (length format) i ≡ false = ground (arith, inside) in
      let one : i + 1 ≡ suc i = omega arith in
      let behind = drop-suc i format (b'%') (t ∷ rest) e in
      rw (test, e, one, behind)
        (ap
          (λ (k : ℕ).
            printf_size_loop string_at fuel format arguments
              ((k + get_insert_length string_at t x + 1) % 2 ^ 32))
          one)

  printf_size_loop-plain :
      (text behind arguments : List ℕ) (fuel i : ℕ)
      → IsPlain text
      → drop i format ≡ text ++ behind
      → printf_size_loop string_at (length text + fuel) format arguments i
        ≡ printf_size_loop string_at fuel format arguments (i + length text)
  printf_size_loop-plain [] behind arguments fuel i plain e =
      let left : 0 + fuel ≡ fuel = omega arith in
      let right : i + 0 ≡ i = omega arith in rw (left, right) refl
  printf_size_loop-plain (c ∷ text) behind arguments fuel i plain e =
      let left : suc (length text) + fuel ≡ suc (length text + fuel) = omega arith in
      let right : i + suc (length text) ≡ suc i + length text = omega arith in
      rw (left, right)
        (printf_size_loop-step c (text ++ behind) arguments (length text + fuel) i plain.0 e
          ∙ printf_size_loop-plain text behind arguments fuel (suc i) plain.1
              (drop-suc i format c (text ++ behind) e))

  printf_size_loop-beyond :
      (arguments : List ℕ) (fuel i : ℕ)
      → length format < i
      → printf_size_loop string_at fuel format arguments i ≡ none
  unfolding printf_size_loop
  printf_size_loop-beyond arguments zero i h = refl
  printf_size_loop-beyond arguments (suc fuel) i h =
      let test : ltb (length format) i ≡ true = ground (arith, h) in rw test refl

insertion-beyond :
    (string_at : ℕ → List ℕ) (text : List ℕ) (t x : ℕ) (rest arguments : List ℕ)
    → IsPlain text
    → length rest < get_insert_length string_at t x
    → length text + 2 + get_insert_length string_at t x < 2 ^ 31
    → printf_size_loop string_at
        (length (text ++ b'%' ∷ t ∷ rest) + 1)
        (text ++ b'%' ∷ t ∷ rest)
        (x ∷ arguments)
        0
      ≡ none
insertion-beyond string_at text t x rest arguments plain behind short =
    let format = text ++ b'%' ∷ t ∷ rest in
    let size : length format ≡ length text + suc (suc (length rest)) =
      length-append text (b'%' ∷ t ∷ rest) in
    let fits : length format < 2 ^ 31 = omega (arith, size, behind, short) in
    let fuel : length format + 1 ≡ length text + suc (suc (suc (length rest))) =
      omega (arith, size) in
    let wraps : (suc (0 + length text) + get_insert_length string_at t x + 1) % 2 ^ 32
        ≡ length text + 2 + get_insert_length string_at t x =
      omega (arith, short) in
    let at : drop (0 + length text) format ≡ b'%' ∷ t ∷ rest =
      let start : 0 + length text ≡ length text = omega arith in
      rw start (drop-append text (b'%' ∷ t ∷ rest)) in
    rw fuel (
      printf_size_loop-plain string_at format fits text (b'%' ∷ t ∷ rest) (x ∷ arguments)
        (suc (suc (suc (length rest)))) 0 plain refl
      ∙ printf_size_loop-insertion string_at format fits t rest x arguments
          (suc (suc (length rest))) (0 + length text) at
      ∙ rw wraps (
          printf_size_loop-beyond string_at format fits arguments (suc (suc (length rest)))
            (length text + 2 + get_insert_length string_at t x) (omega (arith, size, behind))))

-- Where fewer characters follow an insertion than it inserts, `printfSize` reads behind the format.
pub printf_size-beyond :
    (string_at : ℕ → List ℕ) (text : List ℕ) (t x : ℕ) (rest arguments : List ℕ)
    → IsPlain text
    → length rest < get_insert_length string_at t x
    → length text + 2 + get_insert_length string_at t x < 2 ^ 31
    → printf_size string_at (text ++ b'%' ∷ t ∷ rest) (x ∷ arguments) ≡ none
unfolding printf_size
printf_size-beyond string_at text t x rest arguments plain behind short =
    insertion-beyond string_at text t x rest arguments plain behind short
