-- ===== src/Kernel/Schedule.antt =====
-- The start of a function of a service: `scheduleFunction` and the searches of
-- src/kernel/service/service.c, and the interrupts and exceptions of
-- src/kernel/interrupts/interrupts.c that start the functions subscribed to them.
pub mod Queue
use honey_os.Base.{
  ℕ, zero, suc, ◌+◌, ◌-◌, ◌*◌, ◌/◌, ◌%◌, ◌^◌, Bool, true, false, not, ◌&&◌, ◌||◌, Option, none,
  some, List, [], ◌∷◌, ◌++◌, leb, ◌==◌, if◌then◌else◌, update, ◌>>=◌, take,
}
use honey_os.Memory.Mapping.{kernel_space, get_physical_address}
use honey_os.Memory.Pages.{get_pages_count, share_page}
use honey_os.Lists.{list_add}
use honey_os.Kernel.State.{
  Syscall, empty_syscall, Service, ServiceFunction, KernelState, new_syscall, enqueue, new_function,
}

-- How many parameters there are: the loop that reads the words of the caller's stack from the first
-- parameter on, to a zero behind the first four. `none`: there is no zero on the stack.
unfoldable pub parameter_count : ℕ → List ℕ → Option ℕ
parameter_count i [] = none
parameter_count i (word ∷ words) =
    let rest = parameter_count ((i + 1) % 2 ^ 32) words in
    if not (word == 0) || leb i 3 then rest else some i

-- Words written one behind the other from address `a` on.
unfoldable pub write_words : ℕ → List ℕ → (ℕ → ℕ) → ℕ → ℕ
write_words a [] memory = memory
write_words a (word ∷ words) memory = write_words (a + 4) words (update memory a word)

-- Where the frame of `count` parameters starts in the page at `esp`.
unfoldable pub frame_start : (esp count : ℕ) → ℕ
frame_start esp count = (esp + 0xff0 + (2 ^ 32 - count * 4 % 2 ^ 32)) % 2 ^ 32

-- The call that runs a function, with its frame in the page `stack`, and its place in the queue.
unfoldable pub run_call :
    ServiceFunction → (responding_to count stack directory : ℕ) → List ℕ → KernelState → KernelState
unfolding enqueue new_syscall
run_call provider responding_to count stack directory words k =
    let start = frame_start stack count in
    let call = record empty_syscall {
      esp = start;
      responding_to = responding_to;
      cr3 = directory;
      service = provider.service;
      resume = true;
    } in
    let frame = provider.address ∷ k.run_end ∷ take count words in
    let k₁ = record k { words = write_words start frame k.words } in
    enqueue k.next_object (new_syscall call k₁)

-- `scheduleFunction`; `words` are the parameters and what stands behind them on the stack of the
-- caller. `malloc(0x1000)` gives a whole page. `none`: there is no page, or no zero on the stack.
unfoldable pub schedule_function :
    ServiceFunction → (responding_to : ℕ) → List ℕ → KernelState → Option KernelState
unfolding run_call
schedule_function provider responding_to words k = do
  count ← parameter_count 0 words
  (stack, m₁) ← get_pages_count 1 k.memory
  let service = k.service_at provider.service
  let (directory, m₂) = get_physical_address kernel_space service.page_directory m₁
  (shared, m₃) ← share_page service.space stack stack m₂
  some (run_call provider responding_to count stack directory words (record k { memory = m₃ }))

-- The loop over a list of subscriptions: each is started with the same parameters.
unfoldable pub schedule_all :
    List ℕ → (responding_to : ℕ) → List ℕ → KernelState → Option KernelState
unfolding schedule_function
schedule_all [] responding_to words k = some k
schedule_all (function ∷ functions) responding_to words k = do
  k' ← schedule_function (k.function_at function) responding_to words k
  schedule_all functions responding_to words k'
