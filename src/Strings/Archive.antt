-- ===== src/Strings/Archive.antt =====
-- The search in the start image: findTarFile of src/kernel/memory/tar.c.
use mathlib.Core.Path.{subst}
use mathlib.Core.Option.{some-injective}
use honey_os.Base.{
  ◌⊎◌, ℕ, zero, suc, ◌+◌, ◌*◌, ◌/◌, ◌≤◌, ◌<◌, ◌≡◌, ◌↔◌, inl, inr, refl, sym, ap, ◌∙◌, Option, none,
  some, List, true, false, leb, leb→le, Bool-cases, drop, arith,
}
use honey_os.Strings.{text_at, string_equals, find_tar_loop, find_tar_file}
use honey_os.Strings.Equals.{string_equals_iff}

-- Block `i` of the image begins with the name.
abbrev Names : (memory file_name : List ℕ) (i : ℕ) → Type 0
Names memory file_name i = text_at (drop (i * 512) memory) ≡ text_at file_name

-- Block `i`, of those from block `k` on, is the first one with the name, in an image of the size.
pub record IsFirst (memory file_name : List ℕ) (tar_file_size k i : ℕ) : Type 0 where
  pub from : k ≤ i
  pub inside : i * 512 ≤ tar_file_size
  pub named : Names memory file_name i
  pub first : (j : ℕ) → k ≤ j → j < i → Names memory file_name j → ⊥

Nat-cases : (k i : ℕ) → k ≤ i → (k ≡ i) ⊎ (k < i)
Nat-cases k i h = ground arith

le→leb : (a b : ℕ) → a ≤ b → leb a b ≡ true
le→leb a b h = ground arith

module _ (size : ℕ) (memory file_name : List ℕ) where
  -- The rounds of the loop from block `k` on.
  abbrev search : (fuel k : ℕ) → Option ℕ
  search fuel k = find_tar_loop fuel (k * 512) size memory file_name

  search-end : (fuel k : ℕ) → leb (k * 512) size ≡ false → search (suc fuel) k ≡ none
  unfolding find_tar_loop
  search-end fuel k e = rw e refl

  search-named :
      (fuel k : ℕ)
      → leb (k * 512) size ≡ true
      → Names memory file_name k
      → search (suc fuel) k ≡ some (k * 512 + 512)
  unfolding find_tar_loop
  search-named fuel k e n = rw (e, (string_equals_iff (drop (k * 512) memory) file_name).1 n) refl

  search-later :
      (fuel k : ℕ)
      → leb (k * 512) size ≡ true
      → string_equals (drop (k * 512) memory) file_name ≡ false
      → search (suc fuel) k ≡ search fuel (suc k)
  unfolding find_tar_loop
  search-later fuel k e n =
      let next : k * 512 + 512 ≡ suc k * 512 = omega arith in
      rw (e, n) (ap (λ q. find_tar_loop fuel q size memory file_name) next)

  not_named :
      (k : ℕ)
      → (Names memory file_name k → ⊥)
      → string_equals (drop (k * 512) memory) file_name ≡ false
  not_named k h = elim (Bool-cases (string_equals (drop (k * 512) memory) file_name)) [
    | inl e ↦ absurd (h ((string_equals_iff (drop (k * 512) memory) file_name).0 e))
    | inr e ↦ e
  ]

  IsFirst-search :
      (fuel k i : ℕ)
      → i < k + fuel
      → IsFirst memory file_name size k i
      → search fuel k ≡ some (i * 512 + 512)
  IsFirst-search zero k i f h = ground (arith, h.from)
  IsFirst-search (suc fuel) k i f h = elim (Nat-cases k i h.from) [
    | inl e ↦
        subst (λ x. search (suc fuel) k ≡ some (x * 512 + 512)) e
          (search-named fuel k (le→leb (k * 512) size (omega (arith, e, h.inside)))
            (subst (λ x. Names memory file_name x) (sym e) h.named))
    | inr l ↦
        search-later fuel k (le→leb (k * 512) size (omega (arith, l, h.inside)))
          (not_named k (h.first k (omega arith) l))
        ∙ IsFirst-search fuel (suc k) i (omega (arith, f)) record {
          from = l;
          inside = h.inside;
          named = h.named;
          first = λ j from. h.first j (omega (arith, from));
        }
  ]

  search-IsFirst :
      (fuel k start : ℕ)
      → search fuel k ≡ some start
      → (i : ℕ) × (start ≡ i * 512 + 512) × IsFirst memory file_name size k i
  unfolding find_tar_loop
  search-IsFirst zero k start e = ground arith
  search-IsFirst (suc fuel) k start e = elim (Bool-cases (leb (k * 512) size)) [
    | inr l ↦ let bad : none ≡ some start = sym (search-end fuel k l) ∙ e in cc
    | inl l ↦ elim (Bool-cases (string_equals (drop (k * 512) memory) file_name)) [
      | inl s ↦
          let named = (string_equals_iff (drop (k * 512) memory) file_name).0 s in
          (
            k,
            some-injective _ _ (sym e ∙ search-named fuel k l named),
            record {
              from = omega arith;
              inside = leb→le (k * 512) size l;
              named = named;
              first = λ j from below n. omega (arith, from, below);
            },
          )
      | inr s ↦
          let (i, place, found) =
            search-IsFirst fuel (suc k) start (sym (search-later fuel k l s) ∙ e) in
          (
            i,
            place,
            record {
              from = omega (arith, found.from);
              inside = found.inside;
              named = found.named;
              first = λ j from below n. elim (Nat-cases k j from) [
                | inl same ↦
                    let yes =
                      (string_equals_iff (drop (k * 512) memory) file_name).1
                        (subst (λ x. Names memory file_name x) (sym same) n) in
                    cc
                | inr l ↦ found.first j l below n
              ];
            },
          )
    ]
  ]

-- `findTarFile` returns the place behind a header exactly where this header is the first of all blocks of 512 bytes up to the size of the image that begins with the name: a file that lies there is found, no other one is, and without such a block it is NULL.
pub find_tar_file_iff :
    (memory : List ℕ) (tar_file_size : ℕ) (file_name : List ℕ) (start : ℕ)
    → (find_tar_file memory tar_file_size file_name ≡ some start)
      ↔ (i : ℕ) × (start ≡ i * 512 + 512) × IsFirst memory file_name tar_file_size 0 i
unfolding find_tar_file
find_tar_file_iff memory size file_name start = (
  (λ e. search-IsFirst size memory file_name (size / 512 + 1) 0 start e),
  (λ found.
      let (i, place, h) = found in
      IsFirst-search size memory file_name (size / 512 + 1) 0 i (omega (arith, h.inside)) h
      ∙ ap (λ x. some x) (sym place)),
)
