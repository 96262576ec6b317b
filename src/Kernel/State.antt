-- ===== src/Kernel/State.antt =====
-- The objects of src/kernel/include/service.h and src/kernel/include/syscall.h, and the variables
-- of the kernel that hold them. A pointer is a number, 0 is NULL; what it points to is in the store
-- of its type. `malloc` gives a pointer that was not in use, to an object that is cleared.
use honey_os.Base.{ℕ, ◌+◌, Bool, false, List, update}
use honey_os.StringMap.{Text, Root}
use honey_os.Memory.Mapping.{Memory}
use honey_os.Lists.{list_add}

-- `Syscall`
pub record Syscall : Type 0 where
  pub function : ℕ
  pub parameter0 : ℕ
  pub parameter1 : ℕ
  pub parameter2 : ℕ
  pub parameter3 : ℕ
  pub return_value : ℕ
  pub esp : ℕ
  pub cr3 : ℕ
  pub responding_to : ℕ
  pub service : ℕ
  pub resume : Bool
  pub avoid_reschedule : Bool

abbrev pub empty_syscall : Syscall
empty_syscall = record {
  function = 0;
  parameter0 = 0;
  parameter1 = 0;
  parameter2 = 0;
  parameter3 = 0;
  return_value = 0;
  esp = 0;
  cr3 = 0;
  responding_to = 0;
  service = 0;
  resume = false;
  avoid_reschedule = false;
}

-- `SymbolEntry`, the fields that are used.
pub record SymbolEntry : Type 0 where
  pub name : ℕ
  pub value : ℕ
  pub size : ℕ

-- `Service`; its `PagingInfo` is the space with number `space` of the memory, the directory of
-- which is at `page_directory`.
pub record Service : Type 0 where
  pub space : ℕ
  pub page_directory : ℕ
  pub name : Text
  pub name_hash : ℕ
  pub functions : List ℕ
  pub events : List ℕ
  pub symbol_table : List SymbolEntry
  pub string_table : List ℕ
  pub id : ℕ

-- `ServiceFunction`
pub record ServiceFunction : Type 0 where
  pub name : Text
  pub address : ℕ
  pub service : ℕ

-- `Event`
pub record Event : Type 0 where
  pub name : ℕ
  pub subscriptions : List ℕ
  pub waiting_syscalls : List ℕ

-- `services`, `callsToProcess`, `currentSyscall`, `kernelEvents` and `interruptSubscriptions`; the
-- objects by their pointers, the first pointer that is not in use, the words at the addresses of the
-- kernel, and the address of `runEnd`.
pub record KernelState : Type 0 where
  pub services : List ℕ
  pub calls_to_process : List ℕ
  pub current_syscall : ℕ
  pub kernel_events : List ℕ
  pub interrupt_subscriptions : ℕ → List ℕ
  pub syscall_at : ℕ → Syscall
  pub service_at : ℕ → Service
  pub function_at : ℕ → ServiceFunction
  pub event_at : ℕ → Event
  pub next_object : ℕ
  pub words : ℕ → ℕ
  pub run_end : ℕ
  pub strings : Root
  pub memory : Memory

-- `call->... = ...`
unfoldable pub with_syscall : ℕ → Syscall → KernelState → KernelState
with_syscall call value k = record k { syscall_at = update k.syscall_at call value }

-- `call->returnValue = value`
unfoldable pub return_to : ℕ → ℕ → KernelState → KernelState
unfolding with_syscall
return_to call value k = with_syscall call (record (k.syscall_at call) { return_value = value }) k

-- `listAdd(&callsToProcess, call)`
unfoldable pub enqueue : ℕ → KernelState → KernelState
enqueue call k = record k { calls_to_process = list_add k.calls_to_process call }

unfoldable pub with_event : ℕ → Event → KernelState → KernelState
with_event event value k = record k { event_at = update k.event_at event value }

unfoldable pub with_service : ℕ → Service → KernelState → KernelState
with_service service value k = record k { service_at = update k.service_at service value }

unfoldable pub with_memory : Memory → KernelState → KernelState
with_memory memory k = record k { memory = memory }

-- `malloc` of one object of each type, with the value that is written to it.
unfoldable pub new_syscall : Syscall → KernelState → KernelState
new_syscall value k = record k {
  syscall_at = update k.syscall_at k.next_object value;
  next_object = k.next_object + 1;
}

unfoldable pub new_event : Event → KernelState → KernelState
new_event value k = record k {
  event_at = update k.event_at k.next_object value;
  next_object = k.next_object + 1;
}

unfoldable pub new_function : ServiceFunction → KernelState → KernelState
new_function value k = record k {
  function_at = update k.function_at k.next_object value;
  next_object = k.next_object + 1;
}
