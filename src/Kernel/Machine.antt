-- ===== src/Kernel/Machine.antt =====
-- The system calls that drive ports or read and write the memory of a service:
-- src/kernel/util/IOSyscalls.c and two of src/kernel/stringmap/stringmapSyscalls.c. A handler returns
-- what it does to the machine with the state.
use honey_os.Base.{
  ℕ, ◌%◌, ◌^◌, Option, none, some, List, [], ◌∷◌, ◌++◌, ◌==◌, if◌then◌else◌, ◌>>=◌, take,
}
use honey_os.StringMap.{insert_string, retrieve_string}
use honey_os.Strings.{strlen}
use honey_os.Memory.Mapping.{get_physical_address}
use honey_os.Memory.Pages.{kernel_map_physical_count, unmap_page}
use honey_os.Kernel.State.{KernelState, return_to, with_memory}
use honey_os.Kernel.Load.{Image}

-- What the kernel reads of the machine: what `eax` holds behind an `in` of 1, 2 or 4 bytes,
-- whose bits above these are left as they were, and the bytes of the two pages from an address on.
pub record Machine : Type 0 where
  pub port_in : (size port : ℕ) → ℕ
  pub bytes_at : (physical : ℕ) → List ℕ
  pub image : Image

-- What the kernel does to the machine.
pub data Effect : Type 0 where
  port_out : (size port value : ℕ) → Effect
  bytes_written : (address : ℕ) → List ℕ → Effect

-- `handleIOInSyscall`; `dx` holds the low word of the parameter.
unfoldable pub handle_io_in_syscall : Machine → ℕ → KernelState → KernelState
unfolding return_to
handle_io_in_syscall machine call k =
    let reading = k.syscall_at call in
    let port = reading.parameter1 % 2 ^ 16 in
    if reading.parameter0 == 1
    then return_to call (machine.port_in 1 port) k
    else if reading.parameter0 == 2
    then return_to call (machine.port_in 2 port) k
    else if reading.parameter0 == 4
    then return_to call (machine.port_in 4 port) k
    else k

-- `handleIOOutSyscall`
unfoldable pub handle_io_out_syscall : ℕ → KernelState → List Effect × KernelState
handle_io_out_syscall call k =
    let writing = k.syscall_at call in
    let port = writing.parameter1 % 2 ^ 16 in
    if writing.parameter0 == 1
    then (port_out 1 port (writing.parameter2 % 2 ^ 8) ∷ [], k)
    else if writing.parameter0 == 2
    then (port_out 2 port (writing.parameter2 % 2 ^ 16) ∷ [], k)
    else if writing.parameter0 == 4
    then (port_out 4 port (writing.parameter2 % 2 ^ 32) ∷ [], k)
    else ([], k)

-- `handleInsertStringSyscall`
unfoldable pub handle_insert_string_syscall : Machine → ℕ → KernelState → Option KernelState
unfolding insert_string strlen return_to with_memory
handle_insert_string_syscall machine call k =
    let inserting = k.syscall_at call in
    let space = (k.service_at inserting.service).space in
    let inserted = do
      let (physical, m₁) = get_physical_address space inserting.parameter0 k.memory
      (string, m₂) ← kernel_map_physical_count physical 2 m₁
      let bytes = machine.bytes_at physical
      let (id, strings) = insert_string (take (strlen bytes) bytes) k.strings
      m₃ ← unmap_page string m₂
      some (return_to call id (with_memory m₃ (record k { strings = strings })))
    in if inserting.parameter0 == 0 then some k else inserted

-- `handleReadStringSyscall`. For string 0 the pages stay mapped.
unfoldable pub handle_read_string_syscall : ℕ → KernelState → Option (List Effect × KernelState)
unfolding with_memory strlen
handle_read_string_syscall call k = do
  let reading = k.syscall_at call
  let space = (k.service_at reading.service).space
  let (physical, m₁) = get_physical_address space reading.parameter1 k.memory
  (buffer, m₂) ← kernel_map_physical_count physical 2 m₁
  let unmapped = unmap_page buffer m₂
  let copied : List Effect = elim (retrieve_string reading.parameter0 k.strings) [
    | none ↦ []
    | some string ↦ bytes_written physical (take (strlen string) string ++ 0 ∷ []) ∷ []
  ]
  let read = unmapped >>= λ m₃. some (copied, with_memory m₃ k)
  let emptied : List Effect × KernelState = (bytes_written physical (0 ∷ []) ∷ [], with_memory m₂ k)
  if reading.parameter0 == 0 then some emptied else read
