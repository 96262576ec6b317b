-- ===== src/Kernel/Events.antt =====
-- Events: src/kernel/service/events.c and the system calls of src/kernel/service/eventSyscalls.c.
-- A handler gets the pointer of its call; `none`: the code follows NULL.
pub mod Fire
pub mod Await
pub mod Name
use honey_os.Base.{
  ℕ, zero, suc, ◌+◌, ◌%◌, ◌^◌, Bool, true, false, not, ◌&&◌, Option, none, some, List, [], ◌∷◌,
  ◌++◌, ◌==◌, if◌then◌else◌, update, ◌>>=◌,
}
use honey_os.StringMap.{Text, insert_string}
use honey_os.Lists.{list_add, list_count, list_get}
use honey_os.Kernel.State.{
  Syscall, Service, ServiceFunction, Event, KernelState, with_syscall, return_to, enqueue,
  with_event, with_service, new_event, new_function,
}
use honey_os.Kernel.Schedule.{schedule_all}

-- `createKernelEvent`
unfoldable pub create_kernel_event : Text → KernelState → KernelState
unfolding new_event
create_kernel_event name k =
    let (id, strings) = insert_string name k.strings in
    let event : Event = record { name = id; subscriptions = []; waiting_syscalls = [] } in
    record (new_event event (record k { strings = strings })) {
      kernel_events = list_add k.kernel_events k.next_object;
    }

-- Whether a call that waits for an event is kept waiting by code `code`.
unfoldable pub keeps_waiting : ℕ → Syscall → Bool
keeps_waiting code call = not (call.parameter2 == 0) && not (call.parameter2 == code)

-- The loop over the waiting calls: those that are kept waiting are collected in `newWaiting`, the
-- others get their result and go to the queue.
unfoldable pub answer_waiting :
    (value code : ℕ) → List ℕ → (new_waiting : List ℕ) → KernelState → List ℕ × KernelState
answer_waiting value code [] new_waiting k = (new_waiting, k)
answer_waiting value code (call ∷ calls) new_waiting k =
    elim (keeps_waiting code (k.syscall_at call)) [
      | true ↦ answer_waiting value code calls (list_add new_waiting call) k
      | false ↦ answer_waiting value code calls new_waiting (enqueue call (return_to call value k))
    ]

-- The part of `fireEvent` behind the subscriptions.
unfoldable pub answer_calls : (event value code : ℕ) → KernelState → KernelState
unfolding answer_waiting with_event
answer_calls event value code k =
    let (waiting, k₁) = answer_waiting value code (k.event_at event).waiting_syscalls [] k in
    with_event event (record (k₁.event_at event) { waiting_syscalls = waiting }) k₁

-- `fireEvent`; `behind` is what stands on the stack of the caller behind the parameters.
unfoldable pub fire_event :
    (event value code : ℕ) → (behind : List ℕ) → KernelState → Option KernelState
unfolding answer_calls
fire_event event value code behind k = do
  k₁ ← schedule_all (k.event_at event).subscriptions 0 (value ∷ behind) k
  some (answer_calls event value code k₁)

-- `handleCreateEventSyscall`
unfoldable pub handle_create_event_syscall : ℕ → KernelState → KernelState
unfolding new_event with_service return_to
handle_create_event_syscall call k =
    let name = (k.syscall_at call).parameter0 in
    let service = (k.syscall_at call).service in
    let event : Event = record { name = name; subscriptions = []; waiting_syscalls = [] } in
    let events = (k.service_at service).events in
    let k₁ = return_to call (list_count events) (new_event event k) in
    let changed = record (k₁.service_at service) { events = list_add events k.next_object } in
    if name == 0 then k else with_service service changed k₁

-- The events that a call may name: the kernel's, or those of the service with number `target`.
unfoldable pub event_list : (target : ℕ) → KernelState → Option (List ℕ)
event_list target k =
    let service = list_get k.services target in
    if target == 0
    then some k.kernel_events
    else if service == 0
    then none
    else some (k.service_at service).events

-- The loop of `handleGetEventSyscall` from position `i` on.
unfoldable pub find_event : (name i : ℕ) → List ℕ → KernelState → Option ℕ
find_event name i [] k = none
find_event name i (event ∷ events) k =
    let later = find_event name ((i + 1) % 2 ^ 32) events k in
    if (k.event_at event).name == name then some i else later

-- `handleGetEventSyscall`
unfoldable pub handle_get_event_syscall : ℕ → KernelState → Option KernelState
unfolding event_list find_event return_to
handle_get_event_syscall call k =
    let name = (k.syscall_at call).parameter1 in
    let search = do
      events ← event_list (k.syscall_at call).parameter0 k
      elim (find_event name 0 events k) [ none ↦ some k | some i ↦ some (return_to call i k) ]
    in if name == 0 then some k else search

-- `handleFireEventSyscall`
unfoldable pub handle_fire_event_syscall : (behind : List ℕ) → ℕ → KernelState → Option KernelState
unfolding fire_event
handle_fire_event_syscall behind call k =
    let fired = k.syscall_at call in
    let event = list_get (k.service_at fired.service).events fired.parameter0 in
    let after = fire_event event fired.parameter1 fired.parameter2 behind k in
    if event == 0 then some k else after

-- `handleSubscribeEventSyscall`
unfoldable pub handle_subscribe_event_syscall : ℕ → KernelState → Option KernelState
unfolding event_list with_event new_function
handle_subscribe_event_syscall call k =
    let subscriber = k.syscall_at call in
    let provider : ServiceFunction = record {
      name =
          101 ∷ 118 ∷ 101 ∷ 110 ∷ 116 ∷ 32 ∷ 115 ∷ 117 ∷ 98 ∷ 115 ∷ 99 ∷ 114 ∷ 105 ∷ 112 ∷ 116 ∷ 105
          ∷ 111 ∷ 110 ∷ [];
      address = subscriber.parameter2;
      service = subscriber.service;
    } in
    do
      events ← event_list subscriber.parameter0 k
      let event = list_get events subscriber.parameter1
      let old = k.event_at event
      let changed = record old { subscriptions = list_add old.subscriptions k.next_object }
      if event == 0 then none else some (with_event event changed (new_function provider k))

-- `handleAwaitSyscall`
unfoldable pub handle_await_syscall : ℕ → KernelState → Option KernelState
unfolding event_list with_event with_syscall
handle_await_syscall call k =
    let waiting = record (k.syscall_at call) { avoid_reschedule = true } in
    let k₁ = with_syscall call waiting k in
    do
      events ← event_list waiting.parameter0 k₁
      let event = list_get events waiting.parameter1
      let old = k₁.event_at event
      let changed = record old { waiting_syscalls = list_add old.waiting_syscalls call }
      if event == 0 then none else some (with_event event changed k₁)
