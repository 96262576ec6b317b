-- ===== src/Memory/Pages/Release.antt =====
-- Giving pages back: `unmapPageFrom`, `giveUpPage` and `freePageFrom`.
use honey_os.Base.{
  ℕ, zero, suc, ◌/◌, ◌%◌, ◌^◌, ◌≤◌, ◌<◌, ◌≡◌, refl, ap, ◌∙◌, true, false, none, some, ◌==◌,
  if◌then◌else◌, update, arith,
}
use honey_os.Base.Word.{test_bit, test_bit-clear_bit}
use honey_os.Memory.Paging.{PageDirectoryEntry, PagingInfo, mark_page_free}
use honey_os.Memory.Paging.Bitmap.{is_allocated, is_allocated-mark_page_free}
use honey_os.Memory.Mapping.{
  Memory, address, page_id, with_space, get_physical_address, unmap_single_page_from,
}
use honey_os.Memory.Mapping.Translate.{directory_entry, translate, TablesApart, OwnsTables}
use honey_os.Memory.Mapping.Map.{get_physical_address-translate, translate-unmap_single_page_from}
use honey_os.Memory.Pages.{
  unmap_round, unmap_loop, unmap_page_from, free_physical_page, give_up_round, give_up_loop,
  give_up_page, free_round, free_loop, free_page_from, free,
}

-- `markPageFree` has cleared the connection bit that the loop condition reads afterwards.
connection-mark_page_free :
    (info : PagingInfo) (p : ℕ)
    → test_bit ((mark_page_free info (p / 32) (p % 32)).is_page_connected_to_next (p / 32)) (p % 32)
      ≡ false
unfolding mark_page_free update
connection-mark_page_free info p = ground (
  arith,
  test_bit-clear_bit (info.is_page_connected_to_next (p / 32)) (p % 32) (p % 32) (omega arith)
      (omega arith),
)

connection-unmap_round :
    (s p : ℕ) (m : Memory)
    → test_bit (((unmap_round s p m).spaces s).is_page_connected_to_next (p / 32)) (p % 32) ≡ false
unfolding unmap_round unmap_single_page_from with_space update
connection-unmap_round s p m = ground (arith, connection-mark_page_free (m.spaces s) p)

connection-give_up_round :
    (s p : ℕ) (m : Memory)
    → test_bit (((give_up_round s p m).spaces s).is_page_connected_to_next (p / 32)) (p % 32)
      ≡ false
unfolding give_up_round
connection-give_up_round s p m = connection-unmap_round s p _

unmap_loop-one :
    (fuel s p : ℕ) (m : Memory) → unmap_loop (suc fuel) s p m ≡ some (unmap_round s p m)
unfolding unmap_loop
unmap_loop-one fuel s p m = rw (connection-unmap_round s p m) refl

give_up_loop-one :
    (fuel s p : ℕ) (m : Memory) → give_up_loop (suc fuel) s p m ≡ some (give_up_round s p m)
unfolding give_up_loop
give_up_loop-one fuel s p m = rw (connection-give_up_round s p m) refl

-- The loop of `unmapPageFrom` stops behind its first page, whatever the connection bits say: of a
-- run of several pages that were mapped together it takes away the first.
pub unmap_page_from-one :
    (s a : ℕ) (m : Memory) → unmap_page_from s a m ≡ some (unmap_round s (page_id a) m)
unfolding unmap_page_from
unmap_page_from-one s a m = unmap_loop-one 0xfffff s (page_id a) m

pub give_up_page-one : (s p : ℕ) (m : Memory) → give_up_page s p m ≡ some (give_up_round s p m)
unfolding give_up_page
give_up_page-one s p m = give_up_loop-one 0xfffff s p m

-- What is left of page `p` of space `s`, which was mapped to physical page `f`.
pub record Released (m : Memory) (s p f : ℕ) (m' : Memory) : Type 0 where
  pub translates :
      (q : ℕ) → q < 0x100000 → translate m' s q ≡ (if p == q then none else translate m s q)
  pub frame :
      (q : ℕ) → is_allocated m'.physical q ≡ (if f == q then false else is_allocated m.physical q)
  pub page :
      (q : ℕ)
      → is_allocated (m'.spaces s) q ≡ (if p == q then false else is_allocated (m.spaces s) q)

module _ (m : Memory) (s p f : ℕ) (hp : p < 0x100000) (hf : f < 0x100000) (own : OwnsTables m s)
    (mapped : translate m s p ≡ some f) where
  mapped-present : (directory_entry m s p).present ≡ true
  unfolding translate
  mapped-present = ground arith

  physical_of : page_id (get_physical_address s (address p) m).0 ≡ f
  physical_of =
      let same : page_id (address p) ≡ p = omega arith in
      let e =
        get_physical_address-translate m s (address p) {f = f} (omega arith) own (rw same mapped) in
      omega (arith, e)

  -- The state of `giveUpPage` in front of `unmapSinglePageFrom`.
  marked : Memory
  marked =
      let (physical, m₁) = get_physical_address s (address p) m in
      let m₂ = free_physical_page (page_id physical) m₁ in
      with_space s (mark_page_free (m₂.spaces s) (p / 32) (p % 32)) m₂

  page_directory-marked : (marked.spaces s).page_directory ≡ (m.spaces s).page_directory
  unfolding marked get_physical_address free_physical_page with_space update mark_page_free
  page_directory-marked = ground arith

  translate-marked : (q : ℕ) → translate marked s q ≡ translate m s q
  unfolding marked translate get_physical_address free_physical_page with_space update
      mark_page_free
  translate-marked q = ground arith

  TablesApart-marked : TablesApart marked s
  TablesApart-marked = record {
    apart = rw page_directory-marked own.apart;
    small = rw page_directory-marked own.small;
  }

  translate-unmapped :
      (q : ℕ)
      → q < 0x100000
      → translate (unmap_single_page_from s (address p) marked) s q
        ≡ (if p == q then none else translate m s q)
  translate-unmapped q hq =
      let same : page_id (address p) ≡ p = omega arith in
      let here : (directory_entry marked s (page_id (address p))).present ≡ true =
        ap (λ (d : ℕ → PageDirectoryEntry). (d (page_id (address p) / 1024 % 1024)).present)
          page_directory-marked
        ∙ rw same mapped-present in
      translate-unmap_single_page_from marked s (address p) q TablesApart-marked here (omega arith)
        hq
      ∙ rw (same, translate-marked q) refl

  round-translates :
      (q : ℕ)
      → q < 0x100000
      → translate (give_up_round s p m) s q ≡ (if p == q then none else translate m s q)
  unfolding give_up_round marked
  round-translates q hq = translate-unmapped q hq

  round-frame :
      (q : ℕ)
      → is_allocated (give_up_round s p m).physical q
        ≡ (if f == q then false else is_allocated m.physical q)
  unfolding give_up_round unmap_single_page_from with_space get_physical_address
  round-frame q = rw physical_of (is_allocated-mark_page_free m.physical f q)

  round-page :
      (q : ℕ)
      → is_allocated ((give_up_round s p m).spaces s) q
        ≡ (if p == q then false else is_allocated (m.spaces s) q)
  unfolding give_up_round unmap_single_page_from with_space update get_physical_address
  round-page q = ground (arith, is_allocated-mark_page_free (m.spaces s) p q)

-- The system call that frees a page of a service returns on a page that is mapped, in a space
-- with page tables of its own: the page loses its translation and its bit, its physical page
-- becomes free, and no other page of the space and no other physical page is touched.
pub free-Released :
    (m : Memory) (s a f : ℕ)
    → a < 2 ^ 32
    → f < 0x100000
    → OwnsTables m s
    → translate m s (page_id a) ≡ some f
    → (m' : Memory) × (free s a m ≡ some m') × Released m s (page_id a) f m'
unfolding free
free-Released m s a f ha hf own mapped =
    let p = page_id a in
    let hp : p < 0x100000 = omega arith in
    (
      give_up_round s p m,
      give_up_page-one s p m,
      record {
        translates = round-translates m s p f hp hf own mapped;
        frame = round-frame m s p f hp hf own mapped;
        page = round-page m s p f hp hf own mapped;
      },
    )

free_loop-beyond : (fuel s p : ℕ) (m : Memory) → 1024 ≤ p % 4096 → free_loop fuel s p m ≡ none
unfolding free_loop free_round
free_loop-beyond zero s p m h = refl
free_loop-beyond (suc fuel) s p m h = ground arith

-- `freePageFrom` takes the low 12 bits of the page number for an index into the page table: on
-- three of four pages it reads behind the table of 1024 entries.
pub free_page_from-beyond :
    (m : Memory) (s a : ℕ) → 1024 ≤ page_id a % 4096 → free_page_from s a m ≡ none
unfolding free_page_from
free_page_from-beyond m s a h = free_loop-beyond 0x100000 s (page_id a) m h
