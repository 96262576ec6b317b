-- ===== src/Kernel/Services.antt =====
-- Services: the searches of src/kernel/service/service.c, the system calls of
-- src/kernel/service/serviceSyscalls.c, and the functions that are started by an interrupt or an
-- exception (src/kernel/interrupts/interrupts.c).
pub mod Chain
use honey_os.Base.{
  ℕ, zero, suc, ◌+◌, ◌-◌, ◌*◌, ◌/◌, ◌%◌, ◌^◌, Bool, true, false, not, ◌&&◌, Option, none, some,
  List, [], ◌∷◌, ◌++◌, leb, ◌==◌, if◌then◌else◌, update, ◌>>=◌, drop,
}
use honey_os.StringMap.{Text, insert_string, retrieve_string}
use honey_os.Memory.Mapping.{get_physical_address}
use honey_os.Lists.{list_add, list_count, list_get}
use honey_os.Strings.{string_equals, text_at}
use honey_os.Kernel.State.{
  Syscall, SymbolEntry, Service, ServiceFunction, KernelState, with_syscall, return_to,
  with_service, with_memory, new_function,
}
use honey_os.Kernel.Schedule.{schedule_function}

-- `findService`, NULL where there is none.
unfoldable pub find_service : Text → List ℕ → KernelState → ℕ
find_service name [] k = 0
find_service name (service ∷ services) k =
    let later = find_service name services k in
    if string_equals (k.service_at service).name name then service else later

-- The loop of `findFunction`, NULL where there is none.
unfoldable pub find_function : Text → List ℕ → KernelState → ℕ
find_function name [] k = 0
find_function name (function ∷ functions) k =
    let later = find_function name functions k in
    if string_equals (k.function_at function).name name then function else later

-- `getServiceId`, from position `i` on: the number of services where it is none of them.
unfoldable pub get_service_id : (service i : ℕ) → List ℕ → ℕ
get_service_id service i [] = i
get_service_id service i (s ∷ services) =
    let later = get_service_id service ((i + 1) % 2 ^ 32) services in
    if s == service then i else later

-- `handleGetServiceIdSyscall`
unfoldable pub handle_get_service_id_syscall : ℕ → KernelState → KernelState
unfolding return_to
handle_get_service_id_syscall call k =
    return_to call (k.service_at (k.syscall_at call).service).id k

-- The loops that look for a name, from position `i` on.
unfoldable pub service_index : Text → ℕ → List ℕ → KernelState → Option ℕ
service_index name i [] k = none
service_index name i (service ∷ services) k =
    let later = service_index name ((i + 1) % 2 ^ 32) services k in
    if string_equals (k.service_at service).name name then some i else later

unfoldable pub function_index : Text → ℕ → List ℕ → KernelState → Option ℕ
function_index name i [] k = none
function_index name i (function ∷ functions) k =
    let later = function_index name ((i + 1) % 2 ^ 32) functions k in
    if string_equals (k.function_at function).name name then some i else later

-- A result is only written where something was found.
unfoldable pub return_found : ℕ → Option ℕ → KernelState → KernelState
unfolding return_to
return_found call none k = k
return_found call (some i) k = return_to call i k

-- `handleGetServiceSyscall`
unfoldable pub handle_get_service_syscall : ℕ → KernelState → KernelState
unfolding return_found service_index
handle_get_service_syscall call k =
    elim (retrieve_string (k.syscall_at call).parameter0 k.strings) [
      | none ↦ k
      | some name ↦ return_found call (service_index name 0 k.services k) k
    ]

-- `handleGetFunctionSyscall`
unfoldable pub handle_get_function_syscall : ℕ → KernelState → Option KernelState
unfolding return_found function_index
handle_get_function_syscall call k =
    elim (retrieve_string (k.syscall_at call).parameter1 k.strings) [
      | none ↦ some k
      | some name ↦
          let provider = list_get k.services (k.syscall_at call).parameter0 in
          let functions = (k.service_at provider).functions in
          if provider == 0
          then none
          else some (return_found call (function_index name 0 functions k) k)
    ]

-- `handleCreateFunctionSyscall`
unfoldable pub handle_create_function_syscall : ℕ → KernelState → KernelState
unfolding return_to with_service new_function
handle_create_function_syscall call k =
    elim (retrieve_string (k.syscall_at call).parameter0 k.strings) [
      | none ↦ k
      | some name ↦
          let service = (k.syscall_at call).service in
          let function : ServiceFunction = record {
            name = name;
            address = (k.syscall_at call).parameter1;
            service = service;
          } in
          let functions = (k.service_at service).functions in
          let k₁ = return_to call (list_count functions) (new_function function k) in
          let added = list_add functions k.next_object in
          with_service service (record (k₁.service_at service) { functions = added }) k₁
    ]

-- `handleRequestSyscall`: the parameters, the caller's name and its id go to the function.
unfoldable pub handle_request_syscall : (behind : List ℕ) → ℕ → KernelState → Option KernelState
unfolding with_syscall
handle_request_syscall behind call k =
    let request = k.syscall_at call in
    let caller = k.service_at request.service in
    let provider = list_get k.services request.parameter0 in
    let function = list_get (k.service_at provider).functions request.parameter1 in
    let words = request.parameter2 ∷ request.parameter3 ∷ caller.name_hash ∷ caller.id ∷ behind in
    let answer = do
      k₁ ← schedule_function (k.function_at function) call words k
      some (with_syscall call (record (k₁.syscall_at call) { avoid_reschedule = true }) k₁)
    in if provider == 0 then some k else if function == 0 then some k else answer

-- Whether `location` is in the range of a symbol: its last address and the one behind it count.
unfoldable pub in_symbol : ℕ → SymbolEntry → Bool
in_symbol location entry =
    leb entry.value location && leb location ((entry.value + entry.size) % 2 ^ 32)

unfoldable pub find_symbol : ℕ → List SymbolEntry → Option SymbolEntry
unfolding in_symbol
find_symbol location [] = none
find_symbol location (entry ∷ entries) =
    let later = find_symbol location entries in
    if in_symbol location entry then some entry else later

-- `handleLookupSymbolSyscall`
unfoldable pub handle_lookup_symbol_syscall : ℕ → KernelState → Option KernelState
unfolding return_to find_symbol
handle_lookup_symbol_syscall call k =
    let service = list_get k.services (k.syscall_at call).parameter0 in
    let object = k.service_at service in
    let found : Option KernelState =
      elim (find_symbol (k.syscall_at call).parameter1 object.symbol_table) [
        | none ↦ some k
        | some entry ↦
            let name = text_at (drop entry.name object.string_table) in
            let (id, strings) = insert_string name k.strings in
            some (return_to call id (record k { strings = strings }))
      ] in
    if service == 0 then none else found

-- The loop of `handleStackContainsSyscall`: whether service `id` is among those of `call` and of the
-- calls that it responds to. `none`: the fuel does not reach the end.
unfoldable pub chain_contains : (fuel id call : ℕ) → KernelState → Option Bool
chain_contains zero id call k = none
chain_contains (suc fuel) id call k =
    let later = chain_contains fuel id (k.syscall_at call).responding_to k in
    if call == 0
    then some false
    else if (k.service_at (k.syscall_at call).service).id == id
    then some true
    else later

-- `handleStackContainsSyscall`
unfoldable pub handle_stack_contains_syscall : (fuel : ℕ) → ℕ → KernelState → Option KernelState
unfolding chain_contains return_to
handle_stack_contains_syscall fuel call k = do
  found ← chain_contains fuel (k.syscall_at call).parameter0 call k
  some (return_to call (if found then 1 else 0) k)

-- `handleForkSyscall`
unfoldable pub handle_fork_syscall : (behind : List ℕ) → ℕ → KernelState → Option KernelState
handle_fork_syscall behind call k =
    let fork = k.syscall_at call in
    let function : ServiceFunction = record {
      name =
          102 ∷ 111 ∷ 114 ∷ 107 ∷ 101 ∷ 100 ∷ 32 ∷ 102 ∷ 117 ∷ 110 ∷ 99 ∷ 116 ∷ 105 ∷ 111 ∷ 110
          ∷ [];
      address = fork.parameter0;
      service = fork.service;
    } in
    schedule_function function 0 (fork.parameter1 ∷ fork.parameter2 ∷ fork.parameter3 ∷ behind) k
