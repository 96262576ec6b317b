-- ===== src/Kernel/Order/Changes.antt =====
-- The changes that keep the order of the calls.
use mathlib.Core.Path.{subst}
use honey_os.Base.{
  ℕ, ◌≤◌, ◌≡◌, ◌≢◌, refl, sym, ap, ◌∙◌, inl, inr, true, List, [], ◌==◌, ==_iff, ◌⊎◌, update,
  Bool-cases, arith,
}
use honey_os.Memory.Mapping.{Memory}
use honey_os.Lists.{list_add}
use honey_os.Kernel.State.{
  Syscall, Service, ServiceFunction, Event, KernelState, with_syscall, return_to, enqueue,
  with_event, with_service, with_memory, new_event, new_function,
}
use honey_os.Kernel.Order.{
  IsCall, AreCalls, Mark, InOrder, CallsStay, AreCalls-stay, IsSuper-stays, AreCalls-list_add,
  CallsStay-same, SameOrder,
}

-- A call keeps what it responds to, its function, and that it resumes.
pub SameOrder-with_syscall :
    (call : ℕ) (value : Syscall) (k : KernelState)
    → value.responding_to ≡ (k.syscall_at call).responding_to
    → value.function ≡ (k.syscall_at call).function
    → ((k.syscall_at call).resume ≡ true → value.resume ≡ true)
    → SameOrder k (with_syscall call value k)
unfolding with_syscall update
SameOrder-with_syscall call value k e f r =
    let stay : CallsStay k (with_syscall call value k) = λ other is. record {
      present = is.present;
      created = is.created;
      made = elim (Bool-cases (call == other)) [
        | inl same ↦
            let own : call ≡ other = (==_iff call other).0 same in
            rw same (with_made call other own is.made)
        | inr differs ↦ rw differs is.made
      ];
    } in
    record {
      grows = omega arith;
      chains = λ other. ground arith;
      functions = λ other. ground arith;
      calls = stay;
      queue = refl;
      waits = λ event h.
          AreCalls-stay k (with_syscall call value k) (k.event_at event).waiting_syscalls stay h;
    }
  where
    with_made :
        (call' other : ℕ)
        → call ≡ other
        → ((k.syscall_at other).function ≢ 0) ⊎ ((k.syscall_at other).resume ≡ true)
        → (value.function ≢ 0) ⊎ (value.resume ≡ true)
    with_made call' other same (inl n) =
        inl (λ z. n (ap (λ c. (k.syscall_at c).function) (sym same) ∙ sym f ∙ z))
    with_made call' other same (inr y) = inr (r (ap (λ c. (k.syscall_at c).resume) same ∙ y))

pub SameOrder-return_to : (call value : ℕ) (k : KernelState) → SameOrder k (return_to call value k)
unfolding return_to
SameOrder-return_to call value k = SameOrder-with_syscall call _ k refl refl (λ h. h)

-- A change of the other variables, or of the first pointer that is not in use.
pub SameOrder-others :
    (k k' : KernelState)
    → k.next_object ≤ k'.next_object
    → k'.syscall_at ≡ k.syscall_at
    → k'.calls_to_process ≡ k.calls_to_process
    → k'.event_at ≡ k.event_at
    → SameOrder k k'
SameOrder-others k k' h calls queue events =
    let stay = CallsStay-same k k' h calls in
    record {
      grows = h;
      chains = λ call. ap (λ f. (f call).responding_to) calls;
      functions = λ call. ap (λ f. (f call).function) calls;
      calls = stay;
      queue = queue;
      waits = λ event created.
          subst (λ f. AreCalls k' (f event).waiting_syscalls) (sym events)
            (AreCalls-stay k k' (k.event_at event).waiting_syscalls stay created);
    }

pub SameOrder-new_function :
    (value : ServiceFunction) (k : KernelState) → SameOrder k (new_function value k)
unfolding new_function
SameOrder-new_function value k = SameOrder-others k _ (omega arith) refl refl refl

pub SameOrder-with_service :
    (service : ℕ) (value : Service) (k : KernelState) → SameOrder k (with_service service value k)
unfolding with_service
SameOrder-with_service service value k = SameOrder-others k _ (omega arith) refl refl refl

pub SameOrder-with_memory : (memory : Memory) (k : KernelState) → SameOrder k (with_memory memory k)
unfolding with_memory
SameOrder-with_memory memory k = SameOrder-others k _ (omega arith) refl refl refl

AreCalls-update :
    (event other : ℕ) (value : Event) (k k' : KernelState)
    → CallsStay k k'
    → AreCalls k' value.waiting_syscalls
    → AreCalls k (k.event_at other).waiting_syscalls
    → AreCalls k' (update k.event_at event value other).waiting_syscalls
unfolding update
AreCalls-update event other value k k' stay new old = elim (Bool-cases (event == other)) [
  | inl e ↦ rw e new
  | inr e ↦ rw e (AreCalls-stay k k' (k.event_at other).waiting_syscalls stay old)
]

pub SameOrder-new_event :
    (value : Event) (k : KernelState)
    → value.waiting_syscalls ≡ []
    → SameOrder k (new_event value k)
unfolding new_event
SameOrder-new_event value k e =
    let stay = CallsStay-same k (new_event value k) (omega arith) refl in
    record {
      grows = omega arith;
      chains = λ call. refl;
      functions = λ call. refl;
      calls = stay;
      queue = refl;
      waits = λ event h.
          AreCalls-update k.next_object event value k (new_event value k) stay (rw e tt) h;
    }

-- An event gets another list of waiting calls.
pub InOrder-with_event :
    {mark : Mark} (event : ℕ) (value : Event) (k : KernelState)
    → AreCalls k value.waiting_syscalls
    → InOrder mark k
    → InOrder mark (with_event event value k)
unfolding with_event
InOrder-with_event event value k are order =
    let k' = with_event event value k in
    let stay = CallsStay-same k k' (omega arith) refl in
    record {
      beyond = order.beyond;
      function = order.function;
      responds = order.responds;
      older = order.older;
      supers = λ call h. IsSuper-stays k k' _ stay (order.supers call h);
      queued = AreCalls-stay k k' k.calls_to_process stay order.queued;
      waiting = λ other.
          AreCalls-update event other value k k' stay
            (AreCalls-stay k k' value.waiting_syscalls stay are) (order.waiting other);
    }

-- Another queue of calls.
pub InOrder-with_queue :
    {mark : Mark} (calls : List ℕ) (k : KernelState)
    → AreCalls k calls
    → InOrder mark k
    → InOrder mark (record k { calls_to_process = calls })
InOrder-with_queue calls k are order =
    let k' = record k { calls_to_process = calls } in
    let stay = CallsStay-same k k' (omega arith) refl in
    record {
      beyond = order.beyond;
      function = order.function;
      responds = order.responds;
      older = order.older;
      supers = λ call h. IsSuper-stays k k' _ stay (order.supers call h);
      queued = AreCalls-stay k k' calls stay are;
      waiting = λ event.
          AreCalls-stay k k' (k.event_at event).waiting_syscalls stay (order.waiting event);
    }

pub InOrder-enqueue :
    {mark : Mark} (call : ℕ) (k : KernelState)
    → IsCall k call
    → InOrder mark k
    → InOrder mark (enqueue call k)
unfolding enqueue
InOrder-enqueue call k h order =
    InOrder-with_queue (list_add k.calls_to_process call) k
      (AreCalls-list_add k k.calls_to_process call order.queued h) order
