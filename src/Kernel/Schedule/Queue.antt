-- ===== src/Kernel/Schedule/Queue.antt =====
-- What the start of functions leaves as it was, and what it adds to the queue.
use honey_os.Base.{
  ◌≢◌, ℕ, suc, ◌+◌, ◌≤◌, ◌<◌, ◌≡◌, refl, sym, ap, ◌∙◌, true, false, ◌==◌, some, List, [], ◌∷◌, ◌++◌,
  update, >>=-eq-some, length, arith,
}
use mathlib.Core.Option.{some-injective}
use mathlib.Core.List.{append-nil}
use mathlib.Core.Path.{subst}
use honey_os.Memory.Mapping.{Memory, kernel_space, get_physical_address}
use honey_os.Memory.Pages.{get_pages_count, share_page}
use honey_os.Lists.{list_add}
use honey_os.Lists.Laws.{list_add-behind}
use honey_os.Kernel.State.{ServiceFunction, KernelState, new_syscall, enqueue}
use honey_os.Kernel.Schedule.{
  write_words, frame_start, parameter_count, run_call, schedule_function, schedule_all,
}

-- A function of service `provider` was started in state `k`: its call is a new object, and the last
-- of the queue.
pub record Started (provider : ServiceFunction) (responding_to : ℕ) (k k' : KernelState)
    : Type 0 where
  pub queue : k'.calls_to_process ≡ list_add k.calls_to_process k.next_object
  pub responds : (k'.syscall_at k.next_object).responding_to ≡ responding_to
  pub resumes : (k'.syscall_at k.next_object).resume ≡ true
  pub runs : (k'.syscall_at k.next_object).service ≡ provider.service
  pub starts : k'.words (k'.syscall_at k.next_object).esp ≡ provider.address
  pub keeps : (call : ℕ) → call ≢ k.next_object → k'.syscall_at call ≡ k.syscall_at call
  pub events : k'.event_at ≡ k.event_at
  pub functions : k'.function_at ≡ k.function_at
  pub current : k'.current_syscall ≡ k.current_syscall
  pub next : k'.next_object ≡ k.next_object + 1

equal_self : (a : ℕ) → (a == a) ≡ true
equal_self a = ground arith

-- The first of the words that are written stays at its place.
write_words-below :
    (a b : ℕ) (words : List ℕ) (memory : ℕ → ℕ) → b < a → write_words a words memory b ≡ memory b
unfolding write_words update
write_words-below a b [] memory h = refl
write_words-below a b (word ∷ words) memory h =
    let other : (a == b) ≡ false = ground (arith, h) in
    write_words-below (a + 4) b words (update memory a word) (omega (arith, h)) ∙ rw other refl

write_words-first :
    (a word : ℕ) (words : List ℕ) (memory : ℕ → ℕ) → write_words a (word ∷ words) memory a ≡ word
unfolding write_words update
write_words-first a word words memory =
    write_words-below (a + 4) a words (update memory a word) (omega arith) ∙ rw (equal_self a) refl

module _ (provider : ServiceFunction) (responding_to : ℕ) where
  run_call-Started :
      (count stack directory : ℕ) (words : List ℕ) (memory : Memory) (k : KernelState)
      → Started provider responding_to k (
          run_call provider responding_to count stack directory words
            (record k { memory = memory }))
  unfolding run_call enqueue new_syscall update
  run_call-Started count stack directory words memory k = record {
    queue = refl;
    responds = ground arith;
    resumes = ground arith;
    runs = ground arith;
    starts =
        rw (equal_self k.next_object)
          (write_words-first (frame_start stack count) provider.address _ k.words);
    keeps = λ call h. ground arith;
    events = refl;
    functions = refl;
    current = refl;
    next = refl;
  }

  pub schedule_function-Started :
      (words : List ℕ) (k k' : KernelState)
      → schedule_function provider responding_to words k ≡ some k'
      → Started provider responding_to k k'
  unfolding schedule_function
  schedule_function-Started words k k' h =
      let (count, _, h₁) = >>=-eq-some (parameter_count 0 words) _ h in
      let ((stack, m₁), _, h₂) = >>=-eq-some (get_pages_count 1 k.memory) _ h₁ in
      let service = k.service_at provider.service in
      let (directory, m₂) = get_physical_address kernel_space service.page_directory m₁ in
      let ((shared, m₃), _, h₃) = >>=-eq-some (share_page service.space stack stack m₂) _ h₂ in
      subst (λ x. Started provider responding_to k x) (some-injective _ _ h₃)
        (run_call-Started count stack directory words m₃ k)

-- The functions were started one after the other; `runs` are their calls.
pub data StartedEach (responding_to : ℕ)
    : (functions runs : List ℕ) → (k k' : KernelState) → Type 0 where
  done : (k : KernelState) → StartedEach responding_to [] [] k k
  next :
      (function : ℕ) (functions runs : List ℕ) (k k₁ k' : KernelState)
      → Started (k.function_at function) responding_to k k₁
      → StartedEach responding_to functions runs k₁ k'
      → StartedEach responding_to (function ∷ functions) (k.next_object ∷ runs) k k'

-- Functions were started: the calls `runs`, one for each, are behind the old ones in the queue.
pub record AllStarted (functions runs : List ℕ) (responding_to : ℕ) (k k' : KernelState)
    : Type 0 where
  pub each : StartedEach responding_to functions runs k k'
  pub queue : k'.calls_to_process ≡ k.calls_to_process ++ runs
  pub count : length runs ≡ length functions
  pub keeps : (call : ℕ) → call < k.next_object → k'.syscall_at call ≡ k.syscall_at call
  pub events : k'.event_at ≡ k.event_at
  pub grows : k.next_object ≤ k'.next_object

AllStarted-none : (responding_to : ℕ) (k : KernelState) → AllStarted [] [] responding_to k k
AllStarted-none responding_to k = record {
  each = done k;
  queue = sym (append-nil k.calls_to_process);
  count = refl;
  keeps = λ call h. refl;
  events = refl;
  grows = omega arith;
}

AllStarted-next :
    (function : ℕ) (functions runs : List ℕ) {responding_to : ℕ} (k k₁ k' : KernelState)
    → Started (k.function_at function) responding_to k k₁
    → AllStarted functions runs responding_to k₁ k'
    → AllStarted (function ∷ functions) (k.next_object ∷ runs) responding_to k k'
AllStarted-next function functions runs k k₁ k' first others = record {
  each = next function functions runs k k₁ k' first others.each;
  queue =
      others.queue
      ∙ ap (λ q. q ++ runs) first.queue
      ∙ list_add-behind k.calls_to_process runs k.next_object;
  count = ap suc others.count;
  keeps = λ call h. others.keeps call (omega (arith, first.next)) ∙ first.keeps call (omega arith);
  events = others.events ∙ first.events;
  grows = omega (arith, first.next, others.grows);
}

pub schedule_all-AllStarted :
    (functions : List ℕ) (responding_to : ℕ) (words : List ℕ) (k k' : KernelState)
    → schedule_all functions responding_to words k ≡ some k'
    → (runs : List ℕ) × AllStarted functions runs responding_to k k'
unfolding schedule_all
schedule_all-AllStarted [] responding_to words k k' h = (
  [],
  subst (λ x. AllStarted [] [] responding_to k x) (some-injective _ _ h)
      (AllStarted-none responding_to k),
)
schedule_all-AllStarted (function ∷ functions) responding_to words k k' h =
    let provider = k.function_at function in
    let (k₁, e, h₁) = >>=-eq-some (schedule_function provider responding_to words k) _ h in
    let first = schedule_function-Started provider responding_to words k k₁ e in
    let (runs, others) = schedule_all-AllStarted functions responding_to words k₁ k' h₁ in
    (k.next_object ∷ runs, AllStarted-next function functions runs k k₁ k' first others)
