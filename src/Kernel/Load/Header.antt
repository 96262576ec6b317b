-- ===== src/Kernel/Load/Header.antt =====
-- The headers and the tables of a program file: src/kernel/service/elf.h, and where loadElf of
-- src/kernel/service/service.c reads them.
use honey_os.Base.{
  ℕ, zero, suc, ◌+◌, ◌/◌, Bool, true, false, ◌&&◌, Option, none, some, List, [], ◌∷◌, ◌==◌,
  if◌then◌else◌, ◌>>=◌, drop,
}
use honey_os.Base.Bytes.{read16, read32}
use honey_os.Kernel.State.{SymbolEntry}

-- The fields of `ElfHeader` that are used.
pub record ElfHeader : Type 0 where
  pub entry_position : ℕ
  pub program_header_table_position : ℕ
  pub section_header_table_position : ℕ
  pub program_header_entry_size : ℕ
  pub program_header_entry_count : ℕ
  pub section_header_entry_size : ℕ
  pub section_header_entry_count : ℕ

unfoldable pub elf_header : List ℕ → Option ElfHeader
elf_header elf = do
  entry ← read32 elf 24
  programs ← read32 elf 28
  sections ← read32 elf 32
  program_size ← read16 elf 42
  program_count ← read16 elf 44
  section_size ← read16 elf 46
  section_count ← read16 elf 48
  some record {
    entry_position = entry;
    program_header_table_position = programs;
    section_header_table_position = sections;
    program_header_entry_size = program_size;
    program_header_entry_count = program_count;
    section_header_entry_size = section_size;
    section_header_entry_count = section_count;
  }

-- The fields of `ProgramHeader` that are used.
pub record ProgramHeader : Type 0 where
  pub data_offset : ℕ
  pub virtual_address : ℕ
  pub segment_file_size : ℕ
  pub segment_memory_size : ℕ

unfoldable pub program_header : List ℕ → Option ProgramHeader
program_header header = do
  offset ← read32 header 4
  virtual ← read32 header 8
  file_size ← read32 header 16
  memory_size ← read32 header 20
  some record {
    data_offset = offset;
    virtual_address = virtual;
    segment_file_size = file_size;
    segment_memory_size = memory_size;
  }

-- The entries of a symbol table.
unfoldable pub symbols : (count : ℕ) → List ℕ → Option (List SymbolEntry)
symbols zero table = some []
symbols (suc count) table = do
  name ← read32 table 0
  value ← read32 table 4
  size ← read32 table 8
  rest ← symbols count (drop 16 table)
  some (record { name = name; value = value; size = size } ∷ rest)

-- The loop over the section headers: where the first symbol table and the first string table are.
pub record Tables : Type 0 where
  pub symbol_table : Option ℕ
  pub symbol_table_size : ℕ
  pub string_table : Option ℕ

abbrev pub is_none : Option ℕ → Bool
is_none none = true
is_none (some offset) = false

unfoldable pub find_tables :
    (count : ℕ) (elf : List ℕ) (position entry_size : ℕ) → Tables → Option Tables
find_tables zero elf position entry_size tables = some tables
find_tables (suc count) elf position entry_size tables = do
  let section = drop position elf
  kind ← read32 section 4
  offset ← read32 section 16
  size ← read32 section 20
  let with_symbols = record tables { symbol_table = some offset; symbol_table_size = size }
  let first = if kind == 2 && is_none tables.symbol_table then with_symbols else tables
  let with_strings = record first { string_table = some offset }
  let second = if kind == 3 && is_none first.string_table then with_strings else first
  find_tables count elf (position + entry_size) entry_size second

-- The tables of a service.
unfoldable pub load_symbols : (elf : List ℕ) → Tables → Option (List SymbolEntry)
unfolding symbols
load_symbols elf tables = elim tables.symbol_table [
  | none ↦ some []
  | some offset ↦ symbols (tables.symbol_table_size / 16) (drop offset elf)
]

unfoldable pub load_strings : (elf : List ℕ) → Tables → List ℕ
load_strings elf tables = elim tables.string_table [ none ↦ [] | some offset ↦ drop offset elf ]

-- The part of `loadElf` that sets the tables.
unfoldable pub load_tables : (elf : List ℕ) → ElfHeader → Option (List SymbolEntry × List ℕ)
unfolding find_tables load_symbols load_strings
load_tables elf header = do
  tables ←
      find_tables header.section_header_entry_count elf header.section_header_table_position
        header.section_header_entry_size
        record { symbol_table = none; symbol_table_size = 0; string_table = none }
  symbol_table ← load_symbols elf tables
  some (symbol_table, load_strings elf tables)
