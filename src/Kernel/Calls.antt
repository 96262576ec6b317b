-- ===== src/Kernel/Calls.antt =====
-- The life of a system call: src/kernel/syscalls/syscall.c, the loop of src/kernel/main.c, and the
-- functions that interrupts start (src/kernel/interrupts/interrupts.c).
pub mod Answer
pub mod Turns
use honey_os.Base.{
  ℕ, true, Option, none, some, List, [], ◌∷◌, ◌==◌, if◌then◌else◌, update, ◌>>=◌, get_elem?,
}
use honey_os.StringMap.{retrieve_string, discard_string}
use honey_os.Memory.Mapping.{kernel_space, get_physical_address}
use honey_os.Memory.Pages.{request_memory, get_physical, free, free_page}
use honey_os.Lists.{list_add, list_pop_first}
use honey_os.Strings.{strlen}
use honey_os.Kernel.State.{
  empty_syscall, ServiceFunction, KernelState, with_syscall, return_to, enqueue, with_memory,
  new_syscall, new_function,
}
use honey_os.Kernel.Schedule.{schedule_function, schedule_all}
use honey_os.Kernel.Events.{
  handle_create_event_syscall, handle_get_event_syscall, handle_fire_event_syscall,
  handle_subscribe_event_syscall, handle_await_syscall,
}
use honey_os.Kernel.Services.{
  get_service_id, handle_get_service_id_syscall, handle_get_service_syscall,
  handle_get_function_syscall, handle_create_function_syscall, handle_request_syscall,
  handle_lookup_symbol_syscall, handle_stack_contains_syscall, handle_fork_syscall,
}
use honey_os.Kernel.Load.{handle_load_from_initrd_syscall}
use honey_os.Kernel.Machine.{
  Machine, handle_io_in_syscall, handle_io_out_syscall, handle_insert_string_syscall,
  handle_read_string_syscall,
}

-- `onInterrupt`
unfoldable pub on_interrupt : (behind : List ℕ) → (interrupt : ℕ) → KernelState → Option KernelState
unfolding schedule_all
on_interrupt behind interrupt k =
    schedule_all (k.interrupt_subscriptions interrupt) 0 (interrupt ∷ behind) k

-- The loop of `onException`. The number of the service is looked up in the list of services.
unfoldable pub exception_loop :
    List ℕ
    → (behind : List ℕ) → (ebp interrupt error_code eip : ℕ) → KernelState
    → Option KernelState
exception_loop [] behind ebp interrupt error_code eip k = some k
exception_loop (function ∷ functions) behind ebp interrupt error_code eip k = do
  let current = k.syscall_at k.current_syscall
  let service = k.service_at current.service
  let (physical, memory) = get_physical_address service.space ebp k.memory
  let id = get_service_id current.service 0 k.services
  let words = interrupt ∷ error_code ∷ eip ∷ physical ∷ service.name_hash ∷ id ∷ behind
  k' ← schedule_function (k.function_at function) current.responding_to words (with_memory memory k)
  exception_loop functions behind ebp interrupt error_code eip k'

-- `onException`; the current call is freed behind it.
unfoldable pub on_exception :
    (behind : List ℕ) → (ebp interrupt error_code eip : ℕ) → KernelState → Option KernelState
unfolding exception_loop
on_exception behind ebp interrupt error_code eip k =
    exception_loop (k.interrupt_subscriptions 0) behind ebp interrupt error_code eip k

-- `handleSubscribeInterruptSyscall`
unfoldable pub handle_subscribe_interrupt_syscall : ℕ → KernelState → KernelState
unfolding new_function
handle_subscribe_interrupt_syscall call k =
    let subscriber = k.syscall_at call in
    let provider : ServiceFunction = record {
      name = 73 ∷ 78 ∷ 84 ∷ 69 ∷ 82 ∷ 82 ∷ 85 ∷ 80 ∷ 84 ∷ [];
      address = subscriber.parameter1;
      service = subscriber.service;
    } in
    let old = k.interrupt_subscriptions subscriber.parameter0 in
    record (new_function provider k) {
      interrupt_subscriptions =
          update k.interrupt_subscriptions subscriber.parameter0 (list_add old k.next_object);
    }

-- `handleReadStringLengthSyscall`
unfoldable pub handle_read_string_length_syscall : ℕ → KernelState → KernelState
unfolding return_to
handle_read_string_length_syscall call k =
    elim (retrieve_string (k.syscall_at call).parameter0 k.strings) [
      | none ↦ return_to call 0 k
      | some string ↦ return_to call (strlen string) k
    ]

-- `handleDiscardStringSyscall`
unfoldable pub handle_discard_string_syscall : ℕ → KernelState → KernelState
handle_discard_string_syscall call k = record k {
  strings = discard_string (k.syscall_at call).parameter0 k.strings;
}

-- The handlers of src/kernel/service/memorySyscalls.c, between the call and the memory.
unfoldable pub handle_request_memory_syscall : ℕ → KernelState → Option KernelState
unfolding return_to with_memory
handle_request_memory_syscall call k = do
  let caller = k.syscall_at call
  let space = (k.service_at caller.service).space
  (start, memory) ←
      request_memory space caller.parameter0 caller.parameter1 caller.parameter2 k.memory
  some (return_to call start (with_memory memory k))

unfoldable pub handle_get_physical_syscall : ℕ → KernelState → KernelState
unfolding return_to with_memory
handle_get_physical_syscall call k =
    let caller = k.syscall_at call in
    let space = (k.service_at caller.service).space in
    let (physical, memory) = get_physical space caller.parameter0 k.memory in
    return_to call physical (with_memory memory k)

unfoldable pub handle_free_syscall : ℕ → KernelState → Option KernelState
unfolding with_memory
handle_free_syscall call k = do
  let caller = k.syscall_at call
  memory ← free (k.service_at caller.service).space caller.parameter0 k.memory
  some (with_memory memory k)

-- A handler gets the pointer of its call.
abbrev pub Handler : Type 0
Handler = ℕ → KernelState → Option KernelState

-- `syscallHandlers`, which see of the machine what they read; `fuel` is for the loop of `handleStackContainsSyscall`, `behind` what stands on
-- the stack behind the parameters of `scheduleFunction`. No call has number 0.
unfoldable pub syscall_handlers : Machine → (fuel : ℕ) → (behind : List ℕ) → List Handler
unfolding handle_read_string_length_syscall handle_discard_string_syscall
    handle_get_physical_syscall handle_request_memory_syscall handle_free_syscall
    handle_io_in_syscall handle_io_out_syscall handle_load_from_initrd_syscall
    handle_insert_string_syscall handle_read_string_syscall
syscall_handlers machine fuel behind =
    (λ call k. none)
    ∷ (λ call k. some (handle_create_function_syscall call k))
    ∷ handle_request_syscall behind
    ∷ (λ call k. some (handle_io_in_syscall machine call k))
    ∷ (λ call k. some (handle_io_out_syscall call k).1)
    ∷ handle_load_from_initrd_syscall machine.image
    ∷ (λ call k. some (handle_get_service_syscall call k))
    ∷ handle_get_function_syscall
    ∷ (λ call k. some (handle_subscribe_interrupt_syscall call k))
    ∷ (λ call k. some (handle_create_event_syscall call k))
    ∷ handle_get_event_syscall
    ∷ handle_fire_event_syscall behind
    ∷ handle_subscribe_event_syscall
    ∷ (λ call k. some (handle_get_service_id_syscall call k))
    ∷ handle_insert_string_syscall machine
    ∷ (λ call k. some (handle_read_string_length_syscall call k))
    ∷ (λ call k. handle_read_string_syscall call k >>= λ result. some result.1)
    ∷ (λ call k. some (handle_discard_string_syscall call k))
    ∷ handle_request_memory_syscall
    ∷ handle_lookup_symbol_syscall
    ∷ handle_stack_contains_syscall fuel
    ∷ handle_await_syscall
    ∷ (λ call k. some (handle_get_physical_syscall call k))
    ∷ handle_fork_syscall behind
    ∷ handle_free_syscall
    ∷ []

-- The end of `finalizeCall`: the call that the current one responds to is put in the queue, with
-- `returnCode` as its result if it is a request.
unfoldable pub answer_super : (return_code : ℕ) → KernelState → KernelState
unfolding return_to enqueue
answer_super return_code k =
    let super = (k.syscall_at k.current_syscall).responding_to in
    let answered =
      if (k.syscall_at super).function == 2 then return_to super return_code k else k in
    if super == 0 then k else enqueue super answered

-- `finalizeCall`
unfoldable pub finalize_call : (return_code : ℕ) → KernelState → Option KernelState
unfolding with_memory answer_super
finalize_call return_code k = do
  let current = k.syscall_at k.current_syscall
  let service = k.service_at current.service
  let (physical, m) = get_physical_address service.space current.esp k.memory
  memory ← free_page current.esp m
  some (answer_super return_code (with_memory memory k))

-- What a service asks for when it enters the kernel.
pub record Request : Type 0 where
  pub esp : ℕ
  pub function : ℕ
  pub parameter0 : ℕ
  pub parameter1 : ℕ
  pub parameter2 : ℕ
  pub parameter3 : ℕ

-- The part of `handleSyscall` that creates a call.
unfoldable pub create_call : Request → KernelState → KernelState
unfolding enqueue new_syscall with_memory
create_call request k =
    let current = k.syscall_at k.current_syscall in
    let service = k.service_at current.service in
    let (directory, memory) = get_physical_address kernel_space service.page_directory k.memory in
    let call = record empty_syscall {
      function = request.function;
      service = current.service;
      esp = request.esp;
      responding_to = current.responding_to;
      cr3 = directory;
      parameter0 = request.parameter0;
      parameter1 = request.parameter1;
      parameter2 = request.parameter2;
      parameter3 = request.parameter3;
    } in
    enqueue k.next_object (new_syscall call (with_memory memory k))

-- `handleSyscall`
unfoldable pub handle_syscall : Request → KernelState → Option KernelState
unfolding finalize_call create_call
handle_syscall request k =
    let finished = finalize_call request.parameter0 k in
    if request.function == 0 then finished else some (create_call request k)

-- How the run of a service ends: it makes a request, or an exception.
pub data Ending : Type 0 where
  requests : Request → Ending
  raises : (ebp interrupt error_code eip : ℕ) → Ending

-- What happens while a service runs, or while the processor waits: the interrupts that come, and how
-- the run ends. In the kernel itself interrupts are off.
pub record Activity : Type 0 where
  pub interrupts : List ℕ
  pub ending : Ending

unfoldable pub on_interrupts : (behind : List ℕ) → List ℕ → KernelState → Option KernelState
unfolding on_interrupt
on_interrupts behind [] k = some k
on_interrupts behind (interrupt ∷ interrupts) k =
    on_interrupt behind interrupt k >>= on_interrupts behind interrupts

unfoldable pub end_run : (behind : List ℕ) → Ending → KernelState → Option KernelState
unfolding handle_syscall on_exception
end_run behind (requests request) k = handle_syscall request k
end_run behind (raises ebp interrupt error_code eip) k =
    on_exception behind ebp interrupt error_code eip k

-- `resume`: the service of the call runs, until its run ends.
unfoldable pub resume : (behind : List ℕ) → ℕ → Activity → KernelState → Option KernelState
unfolding on_interrupts end_run
resume behind call activity k =
    on_interrupts behind activity.interrupts (record k { current_syscall = call })
    >>= end_run behind activity.ending

-- The part of `processSyscall` behind the handler.
unfoldable pub reschedule : ℕ → KernelState → KernelState
unfolding with_syscall enqueue
reschedule call k =
    let k₁ = with_syscall call (record (k.syscall_at call) { resume = true }) k in
    if (k.syscall_at call).avoid_reschedule then k₁ else enqueue call k₁

-- `processSyscall`; `activity` is what happens where a service is resumed. The call that is freed
-- behind its end keeps its number, and no later call gets it.
unfoldable pub process_syscall :
    List Handler → (behind : List ℕ) → Activity → (call : ℕ) → KernelState → Option KernelState
unfolding resume reschedule
process_syscall handlers behind activity call k =
    let resumed = resume behind call activity k in
    let handled : Option KernelState = elim (get_elem? handlers (k.syscall_at call).function) [
      | none ↦ some k
      | some handler ↦ handler call k
    ] in
    let rescheduled = handled >>= λ k₁. some (reschedule call k₁) in
    if (k.syscall_at call).resume then resumed else rescheduled

-- One round of the loop of `kernelMain`. Without a call the processor waits for interrupts.
unfoldable pub kernel_round :
    List Handler → (behind : List ℕ) → Activity → KernelState → Option KernelState
unfolding process_syscall
kernel_round handlers behind activity k =
    let (call, calls) = list_pop_first k.calls_to_process in
    let k₁ = record k { calls_to_process = calls } in
    let waited = on_interrupts behind activity.interrupts k₁ in
    let processed = process_syscall handlers behind activity call k₁ in
    if call == 0 then waited else processed

-- The loop of `kernelMain`, as far as the rounds in which this happens.
unfoldable pub kernel_rounds :
    List Handler → (behind : List ℕ) → List Activity → KernelState → Option KernelState
unfolding kernel_round
kernel_rounds handlers behind [] k = some k
kernel_rounds handlers behind (activity ∷ activities) k =
    kernel_round handlers behind activity k >>= kernel_rounds handlers behind activities
