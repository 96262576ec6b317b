-- ===== src/Memory/Pages/Fresh.antt =====
-- Pages that are mapped to fresh physical pages: `getPagesCount` and the system call for memory.
use mathlib.Core.Logic.{◌≢◌}
use mathlib.Core.Path.{subst}
use honey_os.Base.{
  ℕ, zero, suc, ◌+◌, ◌≤◌, ◌<◌, ◌≡◌, refl, sym, ◌∙◌, Bool, true, false, some, ◌==◌, if◌then◌else◌,
  arith, ◌⊎◌, inl, >>=-eq-some,
}
use honey_os.Memory.Paging.{reserve_pages_count, find_page}
use honey_os.Memory.Paging.Bitmap.{is_allocated, is_allocated-reserve_page}
use honey_os.Memory.Mapping.{Memory, address, page_id, map_page}
use honey_os.Memory.Mapping.Translate.{translate, OwnsTables, IsSearchable, find_page-free}
use honey_os.Memory.Mapping.Map.{Mapped, map_page-Mapped, reserve_page-IsSearchable}
use honey_os.Memory.Pages.{reserve_physical, map_fresh_pages}

-- The translation of a page, with the physical page free before and allocated now.
pub record IsFresh (m : Memory) (s p : ℕ) (m' : Memory) : Type 0 where
  pub frame : ℕ
  pub mapped : translate m' s p ≡ some frame
  pub was_free : is_allocated m.physical frame ≡ false
  pub is_taken : is_allocated m'.physical frame ≡ true

-- What the loop promises of the pages `[start, start + n)`.
pub record AllFresh (m : Memory) (s start n : ℕ) (m' : Memory) : Type 0 where
  pub fresh : (i : ℕ) → i < n → IsFresh m s (start + i) m'
  pub apart : (i j : ℕ) → i < j → j < n → translate m' s (start + i) ≢ translate m' s (start + j)
  pub others :
      (p : ℕ) → p < 0x100000 → (p < start) ⊎ (start + n ≤ p) → translate m' s p ≡ translate m s p
  pub owns : OwnsTables m' s
  pub searchable : IsSearchable m'.physical
  pub keeps : (q : ℕ) → is_allocated m.physical q ≡ true → is_allocated m'.physical q ≡ true

-- Reserving a physical page leaves the address spaces alone.
OwnsTables-reserve_physical :
    (m : Memory) (s t : ℕ) → t < 0x100000 → OwnsTables m s → OwnsTables (reserve_physical t 1 m) s
unfolding reserve_physical reserve_pages_count
OwnsTables-reserve_physical m s t small own = record {
  allocated = λ i h. ground (
    arith,
    own.allocated i h,
    is_allocated-reserve_page m.physical t ((m.spaces s).page_directory i).page_table_id small,
  );
  apart = own.apart;
  small = own.small;
}

-- One round: the page is fresh in the state behind its `mapPage`.
round-Mapped :
    (m : Memory) (s start t : ℕ) (user : Bool) {m₁ : Memory}
    → start < 0x100000
    → t < 0x100000
    → IsSearchable m.physical
    → OwnsTables m s
    → map_page s (address t) (address start) user false (reserve_physical t 1 m) ≡ some m₁
    → Mapped (reserve_physical t 1 m) s (address t) (address start) m₁
unfolding reserve_physical reserve_pages_count
round-Mapped m s start t user h small v own e =
    map_page-Mapped (reserve_physical t 1 m) s (address t) (address start) user false (omega arith)
      (reserve_page-IsSearchable m.physical t small v) (OwnsTables-reserve_physical m s t small own)
      e

translate-reserve_physical :
    (m : Memory) (s t p : ℕ) → translate (reserve_physical t 1 m) s p ≡ translate m s p
unfolding translate reserve_physical
translate-reserve_physical m s t p = refl

allocated-reserve_physical :
    (m : Memory) (t q : ℕ)
    → t < 0x100000
    → is_allocated (reserve_physical t 1 m).physical q
      ≡ (if t == q then true else is_allocated m.physical q)
unfolding reserve_physical reserve_pages_count
allocated-reserve_physical m t q h = is_allocated-reserve_page m.physical t q h

module _ (m : Memory) (s start t n : ℕ) {m₁ m' : Memory} (ht : t < 0x100000)
    (bound : start + suc n ≤ 0x100000) (free : is_allocated m.physical t ≡ false)
    (one : Mapped (reserve_physical t 1 m) s (address t) (address start) m₁)
    (rest : AllFresh m₁ s (start + 1) n m') where
  -- The first page is not touched again.
  first_translate : translate m' s start ≡ some t
  first_translate =
      rest.others start (omega arith) (inl (omega arith))
      ∙ one.translates start (omega arith)
      ∙ ground arith

  kept : (q : ℕ) → is_allocated m.physical q ≡ true → is_allocated m₁.physical q ≡ true
  kept q h = one.keeps q (ground (arith, allocated-reserve_physical m t q ht))

  taken : is_allocated m₁.physical t ≡ true
  taken = one.keeps t (ground (arith, allocated-reserve_physical m t t ht))

  later : (i : ℕ) → i < n → IsFresh m s (start + suc i) m'
  later i h =
      let f = rest.fresh i h in
      let e : start + 1 + i ≡ start + suc i = omega arith in
      record {
        frame = f.frame;
        mapped = rw e at f.mapped;
        was_free = ground (arith, f.was_free, kept f.frame);
        is_taken = f.is_taken;
      }

  later_ne : (i : ℕ) → i < n → translate m' s (start + suc i) ≢ some t
  later_ne i h e =
      let f = rest.fresh i h in
      let e' : start + 1 + i ≡ start + suc i = omega arith in
      let same : some f.frame ≡ some t = sym (rw e' at f.mapped) ∙ e in
      ground (arith, same, f.was_free, taken)

  first : IsFresh m s (start + 0) m'
  first =
      let e : start + 0 ≡ start = omega arith in
      record {
        frame = t;
        mapped = rw e first_translate;
        was_free = free;
        is_taken = rest.keeps t taken;
      }

  every : (i : ℕ) → i < suc n → IsFresh m s (start + i) m'
  every zero h = first
  every (suc i) h = later i (omega arith)

  distinct : (i j : ℕ) → i < j → j < suc n → translate m' s (start + i) ≢ translate m' s (start + j)
  unfolding first
  distinct zero zero h k e = absurd (omega arith)
  distinct zero (suc j) h k e = later_ne j (omega arith) (sym e ∙ first.mapped)
  distinct (suc i) zero h k e = absurd (omega arith)
  distinct (suc i) (suc j) h k same =
      let e : start + 1 + i ≡ start + suc i = omega arith in
      let e' : start + 1 + j ≡ start + suc j = omega arith in
      rest.apart i j (omega arith) (omega arith) (rw (e, e') same)

  untouched :
      (p : ℕ)
      → p < 0x100000
      → (p < start) ⊎ (start + suc n ≤ p)
      → translate m' s p ≡ translate m s p
  untouched p h out =
      let side : (p < start + 1) ⊎ (start + 1 + n ≤ p) = omega arith in
      let ne : (page_id (address start) == p) ≡ false = ground arith in
      rest.others p h side ∙ one.translates p h ∙ rw ne (translate-reserve_physical m s t p)

  AllFresh-suc : AllFresh m s start (suc n) m'
  AllFresh-suc = record {
    fresh = every;
    apart = distinct;
    others = untouched;
    owns = rest.owns;
    searchable = rest.searchable;
    keeps = λ q h. rest.keeps q (kept q h);
  }

AllFresh-zero :
    (m : Memory) (s start : ℕ) → IsSearchable m.physical → OwnsTables m s → AllFresh m s start 0 m
AllFresh-zero m s start v own = record {
  fresh = λ i h. absurd (omega arith);
  apart = λ i j h k. absurd (omega arith);
  others = λ p h o. refl;
  owns = own;
  searchable = v;
  keeps = λ q h. h;
}

-- The loop maps each of its pages to a physical page of its own that was free.
pub map_fresh_pages-AllFresh :
    (m : Memory) (s start : ℕ) (user : Bool) (n : ℕ) {m' : Memory}
    → start + n ≤ 0x100000
    → IsSearchable m.physical
    → OwnsTables m s
    → map_fresh_pages s start user n m ≡ some m'
    → AllFresh m s start n m'
unfolding map_fresh_pages
map_fresh_pages-AllFresh m s start user zero {m'} bound v own e =
    subst (λ x. AllFresh m s start 0 x) (cc) (AllFresh-zero m s start v own)
map_fresh_pages-AllFresh m s start user (suc n) bound v own e =
    let (t, found, e₁) = >>=-eq-some (find_page m.physical) _ e in
    let (m₁, mapped, e₂) =
      >>=-eq-some (map_page s (address t) (address start) user false (reserve_physical t 1 m)) _
        e₁ in
    let (free, small) = find_page-free m.physical v found in
    let one = round-Mapped m s start t user (omega arith) small v own mapped in
    AllFresh-suc m s start t n small bound free one
      (map_fresh_pages-AllFresh m₁ s (start + 1) user n (omega arith) one.searchable one.owns e₂)
