-- ===== src/Kernel/Order/Resume.antt =====
-- The order of the calls behind handleSyscall and resume (src/kernel/syscalls/syscall.c and
-- src/kernel/service/service.c).
use mathlib.Core.Option.{some-injective}
use mathlib.Core.Path.{subst}
use honey_os.Base.{
  ℕ, ◌<◌, ◌≡◌, ◌≢◌, ◌∙◌, refl, sym, inl, inr, Bool, true, false, Option, some, List, [], ◌∷◌, ◌==◌,
  ==_iff, if◌then◌else◌, update, arith, >>=-eq-some,
}
use honey_os.Memory.Mapping.{get_physical_address}
use honey_os.Memory.Pages.{free_page}
use honey_os.Kernel.State.{
  ServiceFunction, KernelState, with_syscall, return_to, enqueue, with_memory, new_syscall,
}
use honey_os.Kernel.Schedule.{schedule_function, schedule_all}
use honey_os.Kernel.Schedule.Queue.{schedule_function-Started}
use honey_os.Kernel.Services.{get_service_id}
use honey_os.Kernel.Calls.{
  Request, Ending, requests, raises, Activity, on_interrupt, on_interrupts, exception_loop,
  on_exception, end_run, answer_super, finalize_call, create_call, handle_syscall, resume,
  reschedule,
}
use honey_os.Kernel.Order.{
  Mark, IsCall, IsSuper, AreCalls-stay, AreCalls-list_add, CallsStay, CallsStay-same, InOrder,
  SameOrder-InOrder,
}
use honey_os.Kernel.Order.Changes.{
  SameOrder-others, SameOrder-with_syscall, SameOrder-return_to, InOrder-enqueue,
}
use honey_os.Kernel.Order.Added.{IsAdded, IsAdded-stay, IsAdded-InOrder, Started-IsAdded}
use honey_os.Kernel.Order.Handlers.{
  Keeps, Keeps-some, Keeps-bind, InOrder-if, InOrder-return_to, InOrder-with_memory,
  schedule_function-Keeps, schedule_all-Keeps,
}

-- The state behind the start of functions: the same call runs, and all calls stay calls.
pub record Runs (k k' : KernelState) : Type 0 where
  pub current : k'.current_syscall ≡ k.current_syscall
  pub calls : CallsStay k k'

Runs-trans : (k k₁ k' : KernelState) → Runs k k₁ → Runs k₁ k' → Runs k k'
Runs-trans k k₁ k' a b = record {
  current = b.current ∙ a.current;
  calls = λ call is. b.calls call (a.calls call is);
}

Runs-refl : (k k' : KernelState) → k ≡ k' → Runs k k'
Runs-refl k k' e = subst (λ x. Runs k x) e record { current = refl; calls = λ call is. is }

Runs-current :
    (k k' : KernelState) → Runs k k' → IsCall k k.current_syscall → IsCall k' k'.current_syscall
Runs-current k k' runs is =
    subst (λ c. IsCall k' c) (sym runs.current) (runs.calls k.current_syscall is)

schedule_function-Runs :
    (provider : ServiceFunction) (responding_to : ℕ) (words : List ℕ) (k k' : KernelState)
    → IsSuper k responding_to
    → 0 < k.next_object
    → schedule_function provider responding_to words k ≡ some k'
    → Runs k k' × (0 < k'.next_object)
schedule_function-Runs provider responding_to words k k' h positive e =
    let started = schedule_function-Started provider responding_to words k k' e in
    let added = Started-IsAdded provider responding_to k k' started h positive in
    (
      record { current = started.current; calls = IsAdded-stay k k' added },
      omega (arith, started.next),
    )

schedule_all-Runs :
    (functions : List ℕ) (words : List ℕ) (k k' : KernelState)
    → 0 < k.next_object
    → schedule_all functions 0 words k ≡ some k'
    → Runs k k' × (0 < k'.next_object)
unfolding schedule_all
schedule_all-Runs [] words k k' positive e =
    let same = some-injective _ _ e in
    (Runs-refl k k' same, subst (λ x. 0 < x.next_object) same positive)
schedule_all-Runs (function ∷ functions) words k k' positive e =
    let (k₁, s, e₁) = >>=-eq-some (schedule_function (k.function_at function) 0 words k) _ e in
    let (first, positive₁) =
      schedule_function-Runs (k.function_at function) 0 words k k₁ (inl refl) positive s in
    let (rest, positive') = schedule_all-Runs functions words k₁ k' positive₁ e₁ in
    (Runs-trans k k₁ k' first rest, positive')

pub on_interrupts-Runs :
    (behind interrupts : List ℕ) (k k' : KernelState)
    → 0 < k.next_object
    → on_interrupts behind interrupts k ≡ some k'
    → Runs k k'
unfolding on_interrupts on_interrupt
on_interrupts-Runs behind [] k k' positive e = Runs-refl k k' (some-injective _ _ e)
on_interrupts-Runs behind (interrupt ∷ interrupts) k k' positive e =
    let (k₁, s, e₁) = >>=-eq-some (on_interrupt behind interrupt k) _ e in
    let (first, positive₁) =
      schedule_all-Runs (k.interrupt_subscriptions interrupt) (interrupt ∷ behind) k k₁ positive
        s in
    Runs-trans k k₁ k' first (on_interrupts-Runs behind interrupts k₁ k' positive₁ e₁)

if-IsCall :
    (test : Bool) (call : ℕ) (k k' : KernelState)
    → IsCall k call
    → IsCall k' call
    → IsCall (if test then k else k') call
if-IsCall true call k k' x y = x
if-IsCall false call k k' x y = y

pub Keeps-split :
    {b : Mark} (test : Bool) (first second : Option KernelState)
    → (test ≡ true → Keeps b first)
    → (test ≡ false → Keeps b second)
    → Keeps b (if test then first else second)
Keeps-split true first second x y = x refl
Keeps-split false first second x y = y refl

module _ {b : Mark} where
  pub on_interrupts-Keeps :
      (behind interrupts : List ℕ) (k : KernelState)
      → InOrder b k
      → Keeps b (on_interrupts behind interrupts k)
  unfolding on_interrupts on_interrupt
  on_interrupts-Keeps behind [] k order = Keeps-some order
  on_interrupts-Keeps behind (interrupt ∷ interrupts) k order =
      let first =
        schedule_all-Keeps (k.interrupt_subscriptions interrupt) 0 (interrupt ∷ behind) k (inl refl)
          order in
      Keeps-bind (on_interrupt behind interrupt k) _
        λ k₁ e. on_interrupts-Keeps behind interrupts k₁ (first.in_order k₁ e)

  exception_loop-Keeps :
      (functions behind : List ℕ) (ebp interrupt error_code eip : ℕ) (k : KernelState)
      → IsCall k k.current_syscall
      → InOrder b k
      → Keeps b (exception_loop functions behind ebp interrupt error_code eip k)
  unfolding exception_loop with_memory
  exception_loop-Keeps [] behind ebp interrupt error_code eip k is order = Keeps-some order
  exception_loop-Keeps (function ∷ functions) behind ebp interrupt error_code eip k is order =
      let current = k.syscall_at k.current_syscall in
      let service = k.service_at current.service in
      let found = get_physical_address service.space ebp k.memory in
      let k₀ = with_memory found.1 k in
      let words =
        interrupt
        ∷ error_code
        ∷ eip
        ∷ found.0
        ∷ service.name_hash
        ∷ get_service_id current.service 0 k.services
        ∷ behind in
      let order₀ = InOrder-with_memory found.1 k order in
      let is₀ = CallsStay-same k k₀ (omega arith) refl k.current_syscall is in
      let super = order₀.supers k.current_syscall is.present in
      Keeps-bind (schedule_function (k.function_at function) current.responding_to words k₀) _
        λ k₁ e.
          let runs =
            schedule_function-Runs (k.function_at function) current.responding_to words k₀ k₁ super
              (omega (arith, order.beyond)) e in
          exception_loop-Keeps functions behind ebp interrupt error_code eip k₁
            (Runs-current k₀ k₁ runs.0 is₀)
            ((schedule_function-Keeps (k.function_at function) current.responding_to words k₀ super
                order₀).in_order
              k₁ e)

  -- A call that is added to the calls and to the queue.
  create_call-InOrder :
      (request : Request) (k : KernelState)
      → request.function ≢ 0
      → IsCall k k.current_syscall
      → InOrder b k
      → InOrder b (create_call request k)
  unfolding create_call enqueue new_syscall with_memory update
  create_call-InOrder request k n is order =
      let k' = create_call request k in
      let own : (k.next_object == k.next_object) ≡ true = (==_iff _ _).1 refl in
      let added : IsAdded k k' = record {
        next = refl;
        keeps =
            λ call h. let other : (k.next_object == call) ≡ false = ground arith in rw other refl;
        is = record {
          present = λ e. omega (arith, e, order.beyond);
          created = omega arith;
          made = inl (rw own n);
        };
        super = rw own (order.supers k.current_syscall is.present);
      } in
      IsAdded-InOrder k k' added
        (AreCalls-list_add k' k.calls_to_process k.next_object
          (AreCalls-stay k k' k.calls_to_process (IsAdded-stay k k' added) order.queued) added.is)
        refl order

  answer_super-InOrder :
      (return_code : ℕ) (k : KernelState)
      → IsCall k k.current_syscall
      → InOrder b k
      → InOrder b (answer_super return_code k)
  unfolding answer_super
  answer_super-InOrder return_code k is order = answered (order.supers k.current_syscall is.present)
    where
      answered :
          IsSuper k (k.syscall_at k.current_syscall).responding_to
          → InOrder b (answer_super return_code k)
      answered (inl e) =
          let none_above : ((k.syscall_at k.current_syscall).responding_to == 0) ≡ true =
            (==_iff _ _).1 e in
          rw none_above order
      answered (inr h) =
          let above = (k.syscall_at k.current_syscall).responding_to in
          let some_above : (above == 0) ≡ false = ground (arith, h.present) in
          let two = (k.syscall_at above).function == 2 in
          let returned = return_to above return_code k in
          rw some_above (
            InOrder-enqueue above (if two then returned else k)
              (if-IsCall two above returned k
                ((SameOrder-return_to above return_code k).calls above h) h)
              (InOrder-if two returned k (InOrder-return_to above return_code k order) order))

  handle_syscall-Keeps :
      (request : Request) (k : KernelState)
      → IsCall k k.current_syscall
      → InOrder b k
      → Keeps b (handle_syscall request k)
  unfolding handle_syscall finalize_call with_memory
  handle_syscall-Keeps request k is order =
      Keeps-split (request.function == 0) _ _
        (λ z. Keeps-bind (free_page _ _) _ λ memory e. Keeps-some (
          answer_super-InOrder _ (with_memory memory k)
            (CallsStay-same k (with_memory memory k) (omega arith) refl k.current_syscall is)
            (InOrder-with_memory memory k order)))
        (λ n. Keeps-some (create_call-InOrder request k (λ e. ground arith) is order))

  end_run-Keeps :
      (behind : List ℕ) (ending : Ending) (k : KernelState)
      → IsCall k k.current_syscall
      → InOrder b k
      → Keeps b (end_run behind ending k)
  unfolding end_run on_exception
  end_run-Keeps behind (requests request) k is order = handle_syscall-Keeps request k is order
  end_run-Keeps behind (raises ebp interrupt error_code eip) k is order =
      exception_loop-Keeps (k.interrupt_subscriptions 0) behind ebp interrupt error_code eip k is
        order

  pub resume-Keeps :
      (behind : List ℕ) (call : ℕ) (activity : Activity) (k : KernelState)
      → IsCall k call
      → InOrder b k
      → Keeps b (resume behind call activity k)
  unfolding resume
  resume-Keeps behind call activity k h order =
      let k₀ = record k { current_syscall = call } in
      let order₀ =
        SameOrder-InOrder k k₀ (SameOrder-others k k₀ (omega arith) refl refl refl) order in
      Keeps-bind (on_interrupts behind activity.interrupts k₀) _ λ k₁ e.
        let runs =
          on_interrupts-Runs behind activity.interrupts k₀ k₁ (omega (arith, order.beyond)) e in
        end_run-Keeps behind activity.ending k₁
          (Runs-current k₀ k₁ runs (CallsStay-same k k₀ (omega arith) refl call h))
          ((on_interrupts-Keeps behind activity.interrupts k₀ order₀).in_order k₁ e)

  pub reschedule-InOrder :
      (call : ℕ) (k : KernelState) → IsCall k call → InOrder b k → InOrder b (reschedule call k)
  unfolding reschedule
  reschedule-InOrder call k h order =
      let value = record (k.syscall_at call) { resume = true } in
      let same = SameOrder-with_syscall call value k refl refl (λ r. refl) in
      let resumed = SameOrder-InOrder k (with_syscall call value k) same order in
      InOrder-if _ _ _ resumed (InOrder-enqueue call _ (same.calls call h) resumed)
