-- ===== src/Kernel/Tests.antt =====
-- The kernel on a machine with one service, one function, one event and a few calls.
use honey_os.Base.{
  ℕ, ◌≡◌, ◌↔◌, refl, true, false, Bool, Option, none, some, [], ◌∷◌, arith, ◌==◌, if◌then◌else◌,
  update,
}
use honey_os.Memory.Paging.{PagingInfo}
use honey_os.Memory.Mapping.{Memory, empty_entry}
use honey_os.StringMap.{empty_layer}
use honey_os.Lists.{list_get, list_add, list_pop_first}
use honey_os.Kernel.State.{Syscall, empty_syscall, Service, KernelState, return_to}
use honey_os.Kernel.Schedule.{schedule_all}
use honey_os.Kernel.Events.Name.{get_event-create_event}
use honey_os.Kernel.Events.{
  handle_create_event_syscall, handle_get_event_syscall, keeps_waiting, event_list, fire_event,
  handle_await_syscall,
}
use honey_os.Kernel.Events.Fire.{Fired, fire_event-Fired}
use honey_os.Kernel.Events.Await.{IsAnswered, fire_all, handle_await_syscall-IsAnswered}
use honey_os.Kernel.Services.{handle_request_syscall, chain_contains}
use honey_os.Kernel.Services.Chain.{OnChain, chain_contains-OnChain}
use honey_os.Kernel.Machine.{Machine}
use honey_os.Kernel.Calls.{Request, requests, Activity, syscall_handlers, kernel_rounds}
use honey_os.Kernel.Calls.Turns.{Turn, run_function}

abbrev empty_info : PagingInfo
empty_info = record {
  page_directory = λ i. record {
    present = false;
    writable = false;
    belongs_to_user_process = false;
    page_table_id = 0;
  };
  is_page_allocated = λ c. 0;
  is_page_connected_to_next = λ c. 0;
  is_page_allocated_coarse = λ c. 0;
  page_search_start = 1;
}

abbrev empty_memory : Memory
empty_memory = record {
  physical = empty_info;
  spaces = λ s. empty_info;
  tables = λ t i. empty_entry;
  temporary = 0;
}

-- Call 40 requests function 0 of service 0; 41, 42 and 43 wait for codes 7, 7 and 9; 44 responds to 40.
abbrev syscalls : ℕ → Syscall
syscalls call =
    if call == 40
    then record empty_syscall { function = 2; service = 10; parameter2 = 3 }
    else if call == 43
    then record empty_syscall { function = 21; service = 10; parameter2 = 9 }
    else if call == 44
    then record empty_syscall { service = 11; responding_to = 40 }
    else record empty_syscall { function = 21; service = 10; parameter2 = 7 }

abbrev service : Service
service = record {
  space = 1;
  page_directory = 0;
  name = 97 ∷ [];
  name_hash = 97;
  functions = 20 ∷ [];
  events = [];
  symbol_table = [];
  string_table = [];
  id = 5;
}

abbrev kernel : KernelState
kernel = record {
  services = 10 ∷ [];
  calls_to_process = 45 ∷ [];
  current_syscall = 0;
  kernel_events = 30 ∷ [];
  interrupt_subscriptions = λ i. [];
  syscall_at = syscalls;
  service_at = λ s. record service { id = if s == 10 then 5 else 6 };
  function_at = λ f. record { name = 102 ∷ []; address = 0x8000; service = 10 };
  event_at = λ e. record { name = 9; subscriptions = []; waiting_syscalls = 42 ∷ 43 ∷ [] };
  next_object = 50;
  words = λ a. 0;
  run_end = 0x100;
  strings = empty_layer 7;
  memory = empty_memory;
}

abbrev or_kernel : Option KernelState → KernelState
or_kernel none = kernel
or_kernel (some k) = k

abbrev fired : KernelState
fired = or_kernel (fire_event 30 1 7 [] kernel)

fired-queue : fired.calls_to_process ≡ 45 ∷ 42 ∷ []
unfolding fire_event schedule_all keeps_waiting return_to update list_add
fired-queue = refl

fire_event-Fired_example : Fired 30 1 7 kernel fired
unfolding fire_event schedule_all
fire_event-Fired_example =
    fire_event-Fired 30 1 7 [] kernel fired (omega arith, (omega arith, tt)) refl

handle_await_syscall-IsAnswered_example :
    (k₁ : KernelState) × (k' : KernelState) × (handle_await_syscall 41 kernel ≡ some k₁)
    × (fire_all 30 [] ((1, 8) ∷ (2, 9) ∷ (3, 7) ∷ []) k₁ ≡ some k')
    × IsAnswered 41 3 k'
unfolding event_list list_get
handle_await_syscall-IsAnswered_example =
    handle_await_syscall-IsAnswered 41 30 3 [] (30 ∷ []) ((1, 8) ∷ (2, 9) ∷ []) kernel refl refl
      (λ e. ground arith) refl (λ e. ground arith) ((λ e. ground arith), ((λ e. ground arith), tt))

chain_contains-OnChain_example :
    (found : Bool) × (chain_contains 45 5 44 kernel ≡ some found)
    × ((found ≡ true) ↔ OnChain 5 kernel 44)
chain_contains-OnChain_example =
    chain_contains-OnChain 45 5 44 kernel (λ call h. ground arith) (omega arith)

-- A machine without devices: each port shows 0, and there is no program.
abbrev machine : Machine
machine = record {
  port_in = λ size port. 0;
  bytes_at = λ physical. [];
  image = record {
    initrd = [];
    initrd_size = 0;
    load_initrd_event = 30;
    functions_start = 0x10_0000;
    hlib = none;
    old_directory = empty_info.page_directory;
    behind = 0 ∷ [];
  };
}

-- The service yields, and interrupt 33 comes while it runs or while the processor waits.
abbrev yields : Activity
yields = record {
  interrupts = 33 ∷ [];
  ending = requests record {
    esp = 0x1f00;
    function = 1000;
    parameter0 = 0;
    parameter1 = 0;
    parameter2 = 0;
    parameter3 = 0;
  };
}

-- Call 45 starts to wait for event 30, then the queue is empty.
abbrev two_rounds : KernelState
two_rounds =
    or_kernel (kernel_rounds (syscall_handlers machine 45 []) [] (yields ∷ yields ∷ []) kernel)

two_rounds-waiting : (two_rounds.event_at 30).waiting_syscalls ≡ 42 ∷ 43 ∷ 45 ∷ []
unfolding kernel_rounds syscall_handlers list_get update event_list list_pop_first
    handle_await_syscall list_add schedule_all
two_rounds-waiting = refl

-- The function makes a call, which has no handler, and returns 99 when it is resumed; call 45 is the
-- other one in the queue.
abbrev asks : Request
asks = record {
  esp = 0x1f00;
  function = 1000;
  parameter0 = 0;
  parameter1 = 0;
  parameter2 = 0;
  parameter3 = 0;
}

abbrev first_turn : Turn
first_turn = record { others = yields ∷ []; interrupts = 33 ∷ []; request = asks }

abbrev last_turn : Turn
last_turn = record first_turn { request = record asks { function = 0; parameter0 = 99 } }

abbrev requested_state : KernelState
requested_state = or_kernel (handle_request_syscall (0 ∷ []) 40 kernel)

abbrev returned_state : KernelState
returned_state = or_kernel (
    run_function (syscall_handlers machine 45 (0 ∷ [])) (0 ∷ []) 50 (first_turn ∷ []) last_turn
      requested_state)

-- Call 46 creates an event of service 10, which has one already; the others ask for it.
abbrev named_kernel : KernelState
named_kernel = record kernel {
  services = 9 ∷ 10 ∷ [];
  syscall_at = λ call.
      if call == 46
      then record empty_syscall { function = 9; service = 10; parameter0 = 77 }
      else record empty_syscall { function = 10; service = 9; parameter0 = 1; parameter1 = 77 };
  service_at = λ s. record service { events = 31 ∷ [] };
}

get_event-create_event_example :
    handle_get_event_syscall 47 (handle_create_event_syscall 46 named_kernel)
    ≡ some (
        return_to 47
          ((handle_create_event_syscall 46 named_kernel).syscall_at 46).return_value
          (handle_create_event_syscall 46 named_kernel))
unfolding list_get
get_event-create_event_example =
    get_event-create_event 46 47 named_kernel (λ e. ground arith) (λ e. ground arith)
      (λ e. ground arith) refl refl (λ e. ground arith) (omega arith, tt) ((λ e. ground arith), tt)
