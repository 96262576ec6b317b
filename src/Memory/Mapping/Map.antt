-- ===== src/Memory/Mapping/Map.antt =====
-- `mapPage`, `unmapSinglePageFrom` and `getPhysicalAddress` against the translation of a space.
use honey_os.Base.{
  ℕ, ◌+◌, ◌/◌, ◌%◌, ◌^◌, ◌<◌, ◌≡◌, refl, sym, ap, ◌∙◌, Bool, true, false, none, some, ◌==◌,
  if◌then◌else◌, update, arith, Bool-cases, inl, inr,
}
use mathlib.Core.Path.{subst}
use honey_os.Memory.Paging.{PagingInfo, reserve_within, reserve_page, find_page}
use honey_os.Memory.Paging.Bitmap.{
  is_allocated, is_allocated-reserve_page, reserve_page-within, reserve_page-IsExact,
}
use honey_os.Memory.Mapping.{
  Memory, address, page_id, page_offset, page_directory_index, place_page_table,
  get_physical_address, add_page_table, set_page_entry, map_page, unmap_single_page_from,
}
use honey_os.Memory.Mapping.Translate.{
  directory_entry, translate, OwnsTables, TablesApart, IsSearchable, translate-set_page_entry,
  OwnsTables-set_page_entry, find_page-free, place_page_table-present, translate-place_page_table,
  OwnsTables-place_page_table,
}

reserve_within-start :
    (info : PagingInfo) (p : ℕ)
    → info.page_search_start < 0x100000
    → (reserve_within info p).page_search_start < 0x100000
unfolding reserve_within
reserve_within-start info p h = ground (arith, h)

pub reserve_page-IsSearchable :
    (info : PagingInfo) (p : ℕ)
    → p < 0x100000
    → IsSearchable info
    → IsSearchable (reserve_page info p)
reserve_page-IsSearchable info p h v = record {
  exact = reserve_page-IsExact info p h v.exact;
  start =
      subst (λ i. i.page_search_start < 0x100000) (sym (reserve_page-within info p h))
        (reserve_within-start info p v.start);
}

-- What `mapPage` promises of the state that it leaves.
pub record Mapped (m : Memory) (s physical virtual : ℕ) (m' : Memory) : Type 0 where
  pub translates :
      (p : ℕ)
      → p < 0x100000
      → translate m' s p
        ≡ (if page_id virtual == p then some (page_id physical) else translate m s p)
  pub owns : OwnsTables m' s
  pub searchable : IsSearchable m'.physical
  pub keeps : (q : ℕ) → is_allocated m.physical q ≡ true → is_allocated m'.physical q ≡ true

Mapped-present :
    (m : Memory) (s physical virtual : ℕ) (user volatile : Bool)
    → virtual < 2 ^ 32
    → IsSearchable m.physical
    → OwnsTables m s
    → (directory_entry m s (page_id virtual)).present ≡ true
    → Mapped m s physical virtual (set_page_entry s physical virtual user volatile m)
unfolding set_page_entry
Mapped-present m s physical virtual user volatile hv v own here = record {
  translates = λ p hp. translate-set_page_entry m s physical virtual user volatile p own here hv hp;
  owns = OwnsTables-set_page_entry m s physical virtual user volatile own;
  searchable = v;
  keeps = λ q h. h;
}

place_page_table-physical :
    (m : Memory) (s i t : ℕ) (user : Bool)
    → (place_page_table s i user t m).physical ≡ reserve_page m.physical t
unfolding place_page_table
place_page_table-physical m s i t user = refl

Mapped-absent :
    (m : Memory) (s physical virtual t : ℕ) (user volatile : Bool)
    → virtual < 2 ^ 32
    → IsSearchable m.physical
    → OwnsTables m s
    → (directory_entry m s (page_id virtual)).present ≡ false
    → (is_allocated m.physical t ≡ false) × (t < 0x100000)
    → Mapped m s physical virtual (
        set_page_entry s physical virtual user volatile
          (place_page_table s (page_directory_index virtual) user t m))
Mapped-absent m s physical virtual t user volatile hv v own absent (free, small) =
    let i = page_directory_index virtual in
    let m₁ = place_page_table s i user t m in
    let own₁ = OwnsTables-place_page_table m s i t user own absent free small in
    let e = place_page_table-physical m s i t user in
    let v₁ : IsSearchable m₁.physical = rw e (reserve_page-IsSearchable m.physical t small v) in
    let here = place_page_table-present m s i t user own absent free small in
    let after = Mapped-present m₁ s physical virtual user volatile hv v₁ own₁ here in
    record {
      translates = λ p hp.
          after.translates p hp
          ∙ ap (λ o. if page_id virtual == p then some (page_id physical) else o)
              (translate-place_page_table m s i t user own absent free small p);
      owns = after.owns;
      searchable = after.searchable;
      keeps = λ q h.
          after.keeps q (rw e (ground (arith, is_allocated-reserve_page m.physical t q small)));
    }

map_page-absent :
    (m : Memory) (s physical virtual : ℕ) (user volatile : Bool) {m' : Memory}
    → (directory_entry m s (page_id virtual)).present ≡ false
    → map_page s physical virtual user volatile m ≡ some m'
    → (t : ℕ) × (find_page m.physical ≡ some t)
      × (set_page_entry s physical virtual user volatile
            (place_page_table s (page_directory_index virtual) user t m)
          ≡ m')
unfolding map_page add_page_table
map_page-absent m s physical virtual user volatile absent e = ground (arith)

-- For a 32-bit address, a physical bitmap that can be searched and a space with page tables of
-- its own: if `mapPage` returns, it has changed the translation of its page and of no other of
-- the space, it keeps that ownership and the bitmap, and frees no physical page.
pub map_page-Mapped :
    (m : Memory) (s physical virtual : ℕ) (user volatile : Bool) {m' : Memory}
    → virtual < 2 ^ 32
    → IsSearchable m.physical
    → OwnsTables m s
    → map_page s physical virtual user volatile m ≡ some m'
    → Mapped m s physical virtual m'
unfolding map_page
map_page-Mapped m s physical virtual user volatile {m'} hv v own e =
    elim (Bool-cases (directory_entry m s (page_id virtual)).present) [
      | inl here ↦
          let done : set_page_entry s physical virtual user volatile m ≡ m' = ground (arith) in
          rw done at (Mapped-present m s physical virtual user volatile hv v own here)
      | inr absent ↦
          let (t, found, done) = map_page-absent m s physical virtual user volatile absent e in
          rw done at (
            Mapped-absent m s physical virtual t user volatile hv v own absent
              (find_page-free m.physical v found))
    ]

-- On a 32-bit address whose page is mapped, in a space with page tables of its own,
-- `getPhysicalAddress` gives the translation of its page, with the offset of the address in the
-- page.
pub get_physical_address-translate :
    (m : Memory) (s virtual : ℕ) {f : ℕ}
    → virtual < 2 ^ 32
    → OwnsTables m s
    → translate m s (page_id virtual) ≡ some f
    → (get_physical_address s virtual m).0 ≡ address f + page_offset virtual
unfolding get_physical_address translate
get_physical_address-translate m s virtual hv own e =
    ground (arith, own.small (page_directory_index virtual))

-- `unmapSinglePageFrom` on a page with a page table of its own takes away its translation and no
-- other.
pub translate-unmap_single_page_from :
    (m : Memory) (s virtual : ℕ) (p : ℕ)
    → TablesApart m s
    → (directory_entry m s (page_id virtual)).present ≡ true
    → virtual < 2 ^ 32
    → p < 0x100000
    → translate (unmap_single_page_from s virtual m) s p
      ≡ (if page_id virtual == p then none else translate m s p)
unfolding translate unmap_single_page_from update
translate-unmap_single_page_from m s virtual p own here hv hp = ground (
  arith,
  own.apart (page_directory_index virtual) (p / 1024 % 1024) here,
  own.small (page_directory_index virtual) here,
)
