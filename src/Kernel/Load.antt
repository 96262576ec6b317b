-- ===== src/Kernel/Load.antt =====
-- Programs of the start image: loadElf of src/kernel/service/service.c, readInitrdProgram and loadProgram
-- of src/kernel/main.c, and src/kernel/multiboot/initrdSyscall.c. A file is the list of the bytes from
-- its first one to the end of the image.
pub mod Header
pub mod Pages
pub mod Segment
mod Tests
use honey_os.Base.{
  ℕ, zero, suc, ◌+◌, ◌-◌, ◌*◌, ◌/◌, ◌%◌, ◌^◌, Bool, true, false, not, ◌&&◌, Option, none, some,
  List, [], ◌∷◌, ◌++◌, ltb, leb, ◌==◌, if◌then◌else◌, update, ◌>>=◌, drop, take, length, get_or,
}
use honey_os.Base.Bytes.{read16, read32}
use honey_os.StringMap.{Text, insert_string, retrieve_string}
use honey_os.Strings.{combine_strings, find_tar_file}
use honey_os.Lists.{list_add, list_count}
use honey_os.Memory.Paging.{PageDirectoryEntry, PagingInfo, reserve_pages_count}
use honey_os.Memory.Mapping.{Memory, with_space}
use honey_os.Memory.Pages.{get_pages_count, share_page}
use honey_os.Kernel.State.{
  Syscall, SymbolEntry, Service, ServiceFunction, KernelState, with_syscall, return_to,
  with_service, with_memory, new_function,
}
use honey_os.Kernel.Schedule.{schedule_function}
use honey_os.Kernel.Events.{fire_event}
use honey_os.Kernel.Services.{find_function}
use honey_os.Kernel.Load.Header.{ElfHeader, elf_header, is_none, load_tables}
use honey_os.Kernel.Load.Pages.{map_segments}

-- What the loader finds: the image and its size, the event that it fires, the first of the shared
-- functions, the space of hlib once it is loaded, what the page of a new directory holds, and what
-- stands on the stack behind parameters.
pub record Image : Type 0 where
  pub initrd : List ℕ
  pub initrd_size : ℕ
  pub load_initrd_event : ℕ
  pub functions_start : ℕ
  pub hlib : Option ℕ
  pub old_directory : ℕ → PageDirectoryEntry
  pub behind : List ℕ

-- `sharePage` for the pages of the shared functions, `count` of them from one on.
unfoldable pub share_functions : (count space current : ℕ) → Memory → Option Memory
share_functions zero space current m = some m
share_functions (suc count) space current m = do
  (shared, m') ← share_page space current current m
  share_functions count space (current + 0x1000) m'

-- The directory entry of hlib, in a new space.
unfoldable pub share_hlib : (hlib : Option ℕ) (space : ℕ) → Memory → Memory
share_hlib none space m = m
share_hlib (some hlib) space m =
    let old = m.spaces space in
    let entry : PageDirectoryEntry = record ((m.spaces space).page_directory 0x3fc) {
      page_table_id = ((m.spaces hlib).page_directory 0x3fc).page_table_id;
      belongs_to_user_process = true;
      present = true;
      writable = true;
    } in
    with_space space (record old { page_directory = update old.page_directory 0x3fc entry }) m

-- The space of a new service: `memset` clears all of it but the page of the directory.
abbrev pub new_space : Image → PagingInfo
new_space image = record {
  page_directory = image.old_directory;
  is_page_allocated = λ c. 0;
  is_page_connected_to_next = λ c. 0;
  is_page_allocated_coarse = λ c. 0;
  page_search_start = 0;
}

-- "main" and "initrd/"
abbrev pub main_name : Text
main_name = 109 ∷ 97 ∷ 105 ∷ 110 ∷ []

abbrev pub directory_name : Text
directory_name = 105 ∷ 110 ∷ 105 ∷ 116 ∷ 114 ∷ 100 ∷ 47 ∷ []

-- The new service, before the event is fired; its number is also that of its space.
unfoldable pub new_service : Image → Text → (directory : ℕ) → KernelState → KernelState
unfolding insert_string with_space
new_service image name directory k =
    let (hash, strings) = insert_string name k.strings in
    let service : Service = record {
      space = k.next_object;
      page_directory = directory;
      name = name;
      name_hash = hash;
      functions = [];
      events = [];
      symbol_table = [];
      string_table = [];
      id = list_count k.services;
    } in
    record k {
      service_at = update k.service_at k.next_object service;
      next_object = k.next_object + 1;
      strings = strings;
      memory = with_space k.next_object (new_space image) k.memory;
    }

-- The end of `loadElf`: the function `main` and the tables, and the place in the list of services.
unfoldable pub complete_service :
    (service entry : ℕ) → List SymbolEntry → (string_table : List ℕ) → KernelState → KernelState
unfolding new_function with_service
complete_service service entry symbol_table string_table k =
    let provider : ServiceFunction = record {
      name = main_name;
      address = entry;
      service = service;
    } in
    let k₁ = new_function provider k in
    let old = k₁.service_at service in
    let made = record old {
      functions = list_add old.functions k.next_object;
      symbol_table = symbol_table;
      string_table = string_table;
    } in
    record (with_service service made k₁) { services = list_add k.services service }

-- The part of `loadElf` that fills the space: hlib, the shared functions, the first pages, which are
-- reserved, and the segments.
unfoldable pub fill_space :
    Image → (elf : List ℕ) → ElfHeader → (space : ℕ) → Memory → Option (List (ℕ × List ℕ) × Memory)
unfolding share_hlib share_functions with_space map_segments
fill_space image elf header space m = do
  m₁ ← share_functions 3 space image.functions_start (share_hlib image.hlib space m)
  let m₂ = with_space space (reserve_pages_count (m₁.spaces space) 0 0x10) m₁
  map_segments header.program_header_entry_count elf (not (is_none image.hlib)) space
      header.program_header_table_position header.program_header_entry_size m₂

-- `loadElf`: the service, and what is copied to which pages of the kernel.
unfoldable pub load_elf :
    Image → (elf : List ℕ) → Text → KernelState → Option (ℕ × List (ℕ × List ℕ) × KernelState)
unfolding elf_header new_service fire_event fill_space load_tables complete_service with_memory
load_elf image elf name k = do
  header ← elf_header elf
  (directory, m₁) ← get_pages_count 1 k.memory
  k₁ ←
      fire_event image.load_initrd_event (insert_string name k.strings).0 0 image.behind
        (new_service image name directory (with_memory m₁ k))
  (copies, m₂) ← fill_space image elf header k.next_object k₁.memory
  (symbol_table, string_table) ← load_tables elf header
  some (
    k.next_object,
    copies,
    complete_service k.next_object header.entry_position symbol_table string_table
        (with_memory m₂ k₁),
  )

-- The start of the function `main` in `loadProgram`.
unfoldable pub start_main : Image → (service responding_to : ℕ) → KernelState → Option KernelState
unfolding schedule_function find_function
start_main image service responding_to k =
    schedule_function (k.function_at (find_function main_name (k.service_at service).functions k))
      responding_to image.behind k

-- `readInitrdProgram`: where the file of a program is in the image.
unfoldable pub find_program : Image → Text → Option ℕ
unfolding find_tar_file combine_strings
find_program image name =
    find_tar_file image.initrd image.initrd_size (combine_strings directory_name name)

-- `loadProgram`: the pointer to the service and the state. Without the file there is no service, and its
-- start reads through NULL.
unfoldable pub load_program :
    Image → Text → (responding_to : ℕ) (initialize : Bool) → KernelState → Option (ℕ × KernelState)
unfolding find_program load_elf start_main
load_program image name responding_to initialize k = elim (find_program image name) [
  | none ↦ if initialize then none else some (0, k)
  | some position ↦ do
    (service, copies, k₁) ← load_elf image (drop position image.initrd) name k
    k₂ ← if initialize then start_main image service responding_to k₁ else some k₁
    some (service, k₂)
]

-- `handleLoadFromInitrdSyscall`
unfoldable pub handle_load_from_initrd_syscall : Image → ℕ → KernelState → Option KernelState
unfolding load_program return_to with_syscall
handle_load_from_initrd_syscall image call k = do
  let loading = k.syscall_at call
  let initialize = not (loading.parameter1 == 0)
  name ← retrieve_string loading.parameter0 k.strings
  (service, k₁) ← load_program image name call initialize k
  let k₂ = if service == 0 then k₁ else return_to call (k₁.service_at service).id k₁
  some (with_syscall call (record (k₂.syscall_at call) { avoid_reschedule = initialize }) k₂)
