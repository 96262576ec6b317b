-- ===== src/Kernel/Load/Segment.antt =====
-- What the pages of a program hold: the loop over the pages of a segment in loadElf of
-- src/kernel/service/service.c.
use mathlib.Core.Path.{subst}
use honey_os.Base.{
  ℕ, zero, suc, ◌+◌, ◌-◌, ◌*◌, ◌/◌, ◌%◌, ◌^◌, ◌≤◌, ◌<◌, ◌≡◌, refl, inl, inr, sym, ap, ◌∙◌, Bool,
  false, ◌&&◌, none, some, List, ltb, leb, if◌then◌else◌, Bool-cases, arith, get_elem?, drop, take,
  get_elem?-drop, get_elem?-take, get_elem?-take-behind, ltb→lt, lt→ltb,
}
use honey_os.Memory.Mapping.{page_id}
use honey_os.Kernel.Load.Header.{ProgramHeader}
use honey_os.Kernel.Load.Pages.{ProgramPage, copied_bytes, segment_pages, program_pages}

not_ltb : (a b : ℕ) → b ≤ a → ltb a b ≡ false
not_ltb a b h = ground arith

not_ltb→le : (a b : ℕ) → ltb a b ≡ false → b ≤ a
not_ltb→le a b h = ground arith

-- Byte `i` of the first bytes behind `start`, as many as are left of a page.
taken :
    (elf : List ℕ) (start left i : ℕ)
    → i < 0x1000
    → get_elem? (take (if ltb 0x1000 left then 0x1000 else left) (drop start elf)) i
      ≡ (if ltb i left then get_elem? elf (start + i) else none)
taken elf start left i h = elim (Bool-cases (ltb 0x1000 left)) [
  | inl e ↦
      rw
        (
          e,
          lt→ltb i left (omega (arith, ltb→lt 0x1000 left e)),
          get_elem?-take 0x1000 i (drop start elf) h,
        )
        (get_elem?-drop start i elf)
  | inr e ↦ elim (Bool-cases (ltb i left)) [
    | inl l ↦
        rw (e, l, get_elem?-take left i (drop start elf) (ltb→lt i left l))
          (get_elem?-drop start i elf)
    | inr l ↦ rw (e, l) (get_elem?-take-behind left i (drop start elf) (not_ltb→le i left l))
  ]
]

-- Byte `i` of a page that begins at `page` of the segment.
copied_bytes-get_elem? :
    (elf : List ℕ) (header : ProgramHeader) (page i : ℕ)
    → i < 0x1000
    → get_elem? (copied_bytes elf header page) i ≡ (
        if ltb (page + i) header.segment_file_size
        then get_elem? elf (header.data_offset + (page + i))
        else none)
unfolding copied_bytes
copied_bytes-get_elem? elf header page i h = elim (Bool-cases (ltb page header.segment_file_size)) [
  | inl e ↦
      let size = header.segment_file_size in
      let less = ltb→lt page size e in
      let place : header.data_offset + page + i ≡ header.data_offset + (page + i) = omega arith in
      let test : ltb i (size - page) ≡ ltb (page + i) size = ground (arith, less) in
      rw (e, sym place, sym test) (taken elf (header.data_offset + page) (size - page) i h)
  | inr e ↦
      let size = header.segment_file_size in
      rw (e, not_ltb (page + i) size (omega (arith, not_ltb→le page size e))) refl
]

abbrev page_at : (elf : List ℕ) → ProgramHeader → (page : ℕ) → ProgramPage
page_at elf header page = record {
  address = (header.virtual_address + page) % 2 ^ 32;
  copied = copied_bytes elf header page;
}

segment_pages-get_elem? :
    (fuel i : ℕ) (elf : List ℕ) (header : ProgramHeader) (page : ℕ)
    → i < fuel
    → page + i * 0x1000 < header.segment_memory_size
    → get_elem? (segment_pages fuel elf header page) i
      ≡ some (page_at elf header (page + i * 0x1000))
unfolding segment_pages
segment_pages-get_elem? zero i elf header page f h = ground arith
segment_pages-get_elem? (suc fuel) zero elf header page f h =
    let place : page ≡ page + 0 * 0x1000 = omega arith in
    rw (segment_pages, lt→ltb page header.segment_memory_size (omega (arith, h)))
      (ap (λ p. some (page_at elf header p)) place)
segment_pages-get_elem? (suc fuel) (suc i) elf header page f h =
    let place : page + 0x1000 + i * 0x1000 ≡ page + suc i * 0x1000 = omega arith in
    rw (segment_pages, lt→ltb page header.segment_memory_size (omega (arith, h)))
      (segment_pages-get_elem? fuel i elf header (page + 0x1000) (omega (arith, f))
          (omega (arith, h))
        ∙ ap (λ p. some (page_at elf header p)) place)

-- Byte `o` of a segment on its page, which `mapPage` maps by its number alone: where it stands, as far
-- before its virtual address as the segment begins behind the start of a page, and the byte of the
-- file, or none behind the file size.
pub record IsLoaded (elf : List ℕ) (header : ProgramHeader) (pages : List ProgramPage) (o : ℕ)
    : Type 0 where
  pub page : ProgramPage
  pub listed : get_elem? pages (o / 0x1000) ≡ some page
  pub place :
      page_id page.address * 0x1000 + o % 0x1000 + header.virtual_address % 0x1000
      ≡ header.virtual_address + o
  pub byte :
      get_elem? page.copied (o % 0x1000)
      ≡ (if ltb o header.segment_file_size then get_elem? elf (header.data_offset + o) else none)

-- Each byte of a segment that is loaded and lies in 32 bits is on a page of the program, at its virtual address less the offset of the segment in its first page, so at its virtual address exactly where the segment begins with a page: the page holds there the byte of the file where the file has one for it, and nothing is copied there behind the file size.
pub program_pages-IsLoaded :
    (elf : List ℕ) (has_hlib : Bool) (header : ProgramHeader) (o : ℕ)
    → (has_hlib && leb 0xf000_0000 header.virtual_address) ≡ false
    → o < header.segment_memory_size
    → header.virtual_address + o < 2 ^ 32
    → IsLoaded elf header (program_pages elf has_hlib header) o
unfolding program_pages
program_pages-IsLoaded elf has_hlib header o kept h small =
    let i = o / 0x1000 in
    let whole : 0 + i * 0x1000 + o % 0x1000 ≡ o = omega arith in
    record {
      page = page_at elf header (0 + i * 0x1000);
      listed = rw kept (
          segment_pages-get_elem? (header.segment_memory_size / 0x1000 + 1) i elf header 0
            (omega arith) (omega arith));
      place = omega arith;
      byte =
          subst
            (λ p. get_elem? (copied_bytes elf header (0 + i * 0x1000)) (o % 0x1000) ≡ (
              if ltb p header.segment_file_size
              then get_elem? elf (header.data_offset + p)
              else none))
            whole (copied_bytes-get_elem? elf header (0 + i * 0x1000) (o % 0x1000) (omega arith));
    }
