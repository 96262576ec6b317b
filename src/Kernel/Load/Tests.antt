-- ===== src/Kernel/Load/Tests.antt =====
-- A program with one segment: three bytes of the file on the first of its two pages.
use honey_os.Base.{◌≡◌, refl, true, List, ℕ, [], ◌∷◌, arith}
use honey_os.Kernel.Load.Header.{ProgramHeader}
use honey_os.Kernel.Load.Pages.{copied_bytes, segment_pages, program_pages}
use honey_os.Kernel.Load.Segment.{IsLoaded, program_pages-IsLoaded}

abbrev file : List ℕ
file = 7 ∷ 8 ∷ 65 ∷ 66 ∷ 67 ∷ 9 ∷ []

abbrev header : ProgramHeader
header = record {
  data_offset = 2;
  virtual_address = 0x804_8000;
  segment_file_size = 3;
  segment_memory_size = 0x1800;
}

program_pages-two :
    program_pages file true header
    ≡ record { address = 0x804_8000; copied = 65 ∷ 66 ∷ 67 ∷ [] }
      ∷ record { address = 0x804_9000; copied = [] }
      ∷ []
unfolding program_pages segment_pages copied_bytes
program_pages-two = refl

program_pages-IsLoaded_example : IsLoaded file header (program_pages file true header) 1
program_pages-IsLoaded_example =
    program_pages-IsLoaded file true header 1 refl (omega arith) (omega arith)
