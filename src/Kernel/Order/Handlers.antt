-- ===== src/Kernel/Order/Handlers.antt =====
-- The order of the calls behind the handlers of events (src/kernel/service/eventSyscalls.c).
use mathlib.Core.Option.{some-injective}
use mathlib.Core.Path.{subst}
use honey_os.Base.{
  ℕ, ◌≡◌, refl, inl, inr, Bool, true, false, Option, none, some, List, [], ◌∷◌, if◌then◌else◌,
  Bool-cases, ◌>>=◌, arith,
}
use honey_os.Memory.Mapping.{Memory}
use honey_os.Lists.{list_add, list_get}
use honey_os.Kernel.State.{
  Syscall, ServiceFunction, Event, KernelState, with_syscall, return_to, enqueue, with_event,
  with_memory, new_event, new_function,
}
use honey_os.Kernel.Schedule.{schedule_function, schedule_all}
use honey_os.Kernel.Schedule.Queue.{schedule_function-Started}
use honey_os.Kernel.Events.{
  keeps_waiting, answer_waiting, answer_calls, fire_event, event_list, find_event,
  handle_create_event_syscall, handle_get_event_syscall, handle_fire_event_syscall,
  handle_subscribe_event_syscall, handle_await_syscall,
}
use honey_os.Kernel.Order.{
  Mark, IsRequest, IsRequest-IsCall, IsSuper, AreCalls, CallsStay, InOrder, AreCalls-stay,
  AreCalls-list_add, CallsStay-same, IsSuper-stays, SameOrder-InOrder,
}
use honey_os.Kernel.Order.Changes.{
  SameOrder-with_syscall, SameOrder-with_memory, SameOrder-return_to, SameOrder-new_function,
  SameOrder-with_service, SameOrder-new_event, InOrder-with_event, InOrder-enqueue,
}
use honey_os.Kernel.Order.Added.{IsAdded-stay, Started-IsAdded, InOrder-Started}

-- A result is in order, where there is one.
pub record Keeps (b : Mark) (result : Option KernelState) : Type 0 where
  pub in_order : (k : KernelState) → result ≡ some k → InOrder b k

module _ {b : Mark} where
  pub Keeps-none : Keeps b none
  Keeps-none = record { in_order = λ k e. cc }

  pub Keeps-some : {k : KernelState} → InOrder b k → Keeps b (some k)
  Keeps-some order = record {
    in_order = λ k' e. subst (λ x. InOrder b x) (some-injective _ _ e) order;
  }

  pub Keeps-if :
      (test : Bool) (first second : Option KernelState)
      → Keeps b first
      → Keeps b second
      → Keeps b (if test then first else second)
  Keeps-if true first second a b = a
  Keeps-if false first second a b = b

  pub InOrder-if :
      (test : Bool) (first second : KernelState)
      → InOrder b first
      → InOrder b second
      → InOrder b (if test then first else second)
  InOrder-if true first second a b = a
  InOrder-if false first second a b = b

  pub Keeps-bind {ℓ} :
      {A : Type ℓ} (m : Option A) (f : A → Option KernelState)
      → ((a : A) → m ≡ some a → Keeps b (f a))
      → Keeps b (m >>= f)
  Keeps-bind none f h = Keeps-none
  Keeps-bind (some a) f h = h a refl

  pub InOrder-return_to :
      (call value : ℕ) (k : KernelState) → InOrder b k → InOrder b (return_to call value k)
  InOrder-return_to call value k =
      SameOrder-InOrder k (return_to call value k) (SameOrder-return_to call value k)

  pub InOrder-with_memory :
      (memory : Memory) (k : KernelState) → InOrder b k → InOrder b (with_memory memory k)
  InOrder-with_memory memory k =
      SameOrder-InOrder k (with_memory memory k) (SameOrder-with_memory memory k)

  pub InOrder-with_syscall :
      (call : ℕ) (value : Syscall) (k : KernelState)
      → value.responding_to ≡ (k.syscall_at call).responding_to
      → value.function ≡ (k.syscall_at call).function
      → ((k.syscall_at call).resume ≡ true → value.resume ≡ true)
      → InOrder b k
      → InOrder b (with_syscall call value k)
  InOrder-with_syscall call value k e f r =
      SameOrder-InOrder k (with_syscall call value k) (SameOrder-with_syscall call value k e f r)

  pub schedule_function-Keeps :
      (provider : ServiceFunction) (responding_to : ℕ) (words : List ℕ) (k : KernelState)
      → IsSuper k responding_to
      → InOrder b k
      → Keeps b (schedule_function provider responding_to words k)
  schedule_function-Keeps provider responding_to words k h order = record {
    in_order = λ k' e.
        InOrder-Started provider responding_to k k'
          (schedule_function-Started provider responding_to words k k' e) h order;
  }

  pub schedule_all-Keeps :
      (functions : List ℕ) (responding_to : ℕ) (words : List ℕ) (k : KernelState)
      → IsSuper k responding_to
      → InOrder b k
      → Keeps b (schedule_all functions responding_to words k)
  unfolding schedule_all
  schedule_all-Keeps [] responding_to words k h order = Keeps-some order
  schedule_all-Keeps (function ∷ functions) responding_to words k h order =
      let provider = k.function_at function in
      Keeps-bind (schedule_function provider responding_to words k)
        (schedule_all functions responding_to words)
        λ k₁ e.
          let started = schedule_function-Started provider responding_to words k k₁ e in
          let added =
            Started-IsAdded provider responding_to k k₁ started h (omega (arith, order.beyond)) in
          schedule_all-Keeps functions responding_to words k₁
            (IsSuper-stays k k₁ responding_to (IsAdded-stay k k₁ added) h)
            (InOrder-Started provider responding_to k k₁ started h order)

  answer_waiting-InOrder :
      (value code : ℕ) (calls collected : List ℕ) (k : KernelState)
      → AreCalls k calls
      → AreCalls k collected
      → InOrder b k
      → InOrder b (answer_waiting value code calls collected k).1
        × AreCalls
            (answer_waiting value code calls collected k).1
            (answer_waiting value code calls collected k).0
  unfolding answer_waiting return_to with_syscall enqueue
  answer_waiting-InOrder value code [] collected k created new order = (order, new)
  answer_waiting-InOrder value code (call ∷ calls) collected k created new order =
      elim (Bool-cases (keeps_waiting code (k.syscall_at call))) [
        | inl e ↦
            rw (answer_waiting, e)
              (answer_waiting-InOrder value code calls (list_add collected call) k created.1
                (AreCalls-list_add k collected call new created.0) order)
        | inr e ↦
            let k₁ = enqueue call (return_to call value k) in
            let returned = SameOrder-return_to call value k in
            let stay : CallsStay k k₁ = λ c is.
              CallsStay-same (return_to call value k) k₁ (omega arith) refl c
                (returned.calls c is) in
            rw (answer_waiting, e)
              (answer_waiting-InOrder value code calls collected k₁
                (AreCalls-stay k k₁ calls stay created.1) (AreCalls-stay k k₁ collected stay new)
                (InOrder-enqueue call (return_to call value k) (returned.calls call created.0)
                  (InOrder-return_to call value k order)))
      ]

  answer_calls-InOrder :
      (event value code : ℕ) (k : KernelState)
      → InOrder b k
      → InOrder b (answer_calls event value code k)
  unfolding answer_calls
  answer_calls-InOrder event value code k order =
      let (after, created) =
        answer_waiting-InOrder value code (k.event_at event).waiting_syscalls [] k
          (order.waiting event) tt order in
      InOrder-with_event event _
        (answer_waiting value code (k.event_at event).waiting_syscalls [] k).1 created after

  pub fire_event-Keeps :
      (event value code : ℕ) (behind : List ℕ) (k : KernelState)
      → InOrder b k
      → Keeps b (fire_event event value code behind k)
  unfolding fire_event
  fire_event-Keeps event value code behind k order =
      Keeps-bind (schedule_all (k.event_at event).subscriptions 0 (value ∷ behind) k) _ λ k₁ e.
        Keeps-some (
          answer_calls-InOrder event value code k₁ (
            (schedule_all-Keeps (k.event_at event).subscriptions 0 (value ∷ behind) k (inl refl)
                order).in_order
              k₁ e))

  pub handle_create_event_syscall-InOrder :
      (call : ℕ) (k : KernelState) → InOrder b k → InOrder b (handle_create_event_syscall call k)
  unfolding handle_create_event_syscall
  handle_create_event_syscall-InOrder call k order =
      let event : Event = record {
        name = (k.syscall_at call).parameter0;
        subscriptions = [];
        waiting_syscalls = [];
      } in
      let k₁ = new_event event k in
      let made = SameOrder-InOrder k k₁ (SameOrder-new_event event k refl) order in
      InOrder-if _ _ _ order
        (SameOrder-InOrder _ _ (SameOrder-with_service _ _ _) (InOrder-return_to call _ k₁ made))

  pub handle_get_event_syscall-Keeps :
      (call : ℕ) (k : KernelState) → InOrder b k → Keeps b (handle_get_event_syscall call k)
  unfolding handle_get_event_syscall
  handle_get_event_syscall-Keeps call k order = Keeps-if _ _ _ (Keeps-some order) (
      Keeps-bind (event_list (k.syscall_at call).parameter0 k) _
        λ events e. found (find_event (k.syscall_at call).parameter1 0 events k))
    where
      found :
          (position : Option ℕ)
          → Keeps b (elim position [ none ↦ some k | some i ↦ some (return_to call i k) ])
      found none = Keeps-some order
      found (some i) = Keeps-some (InOrder-return_to call i k order)

  pub handle_fire_event_syscall-Keeps :
      (behind : List ℕ) (call : ℕ) (k : KernelState)
      → InOrder b k
      → Keeps b (handle_fire_event_syscall behind call k)
  unfolding handle_fire_event_syscall
  handle_fire_event_syscall-Keeps behind call k order =
      Keeps-if _ _ _ (Keeps-some order) (fire_event-Keeps _ _ _ behind k order)

  -- A new function is subscribed to an event.
  subscribed :
      (event : ℕ) (function : ServiceFunction) (k : KernelState)
      → InOrder b k
      → InOrder b (
          with_event event
            (record (k.event_at event) {
              subscriptions = list_add (k.event_at event).subscriptions k.next_object;
            })
            (new_function function k))
  unfolding new_function
  subscribed event function k order =
      let made =
        SameOrder-InOrder k (new_function function k) (SameOrder-new_function function k) order in
      InOrder-with_event event _ (new_function function k) (made.waiting event) made

  pub handle_subscribe_event_syscall-Keeps :
      (call : ℕ) (k : KernelState) → InOrder b k → Keeps b (handle_subscribe_event_syscall call k)
  unfolding handle_subscribe_event_syscall
  handle_subscribe_event_syscall-Keeps call k order =
      Keeps-bind (event_list (k.syscall_at call).parameter0 k) _ λ events e.
        Keeps-if _ _ _ Keeps-none
          (Keeps-some (subscribed (list_get events (k.syscall_at call).parameter1) _ k order))

  pub handle_await_syscall-Keeps :
      (call : ℕ) (k : KernelState)
      → IsRequest k call
      → InOrder b k
      → Keeps b (handle_await_syscall call k)
  unfolding handle_await_syscall with_syscall
  handle_await_syscall-Keeps call k h order =
      let waiting = record (k.syscall_at call) { avoid_reschedule = true } in
      let k₁ = with_syscall call waiting k in
      let made = InOrder-with_syscall call waiting k refl refl (λ r. r) order in
      Keeps-bind (event_list waiting.parameter0 k₁) _ λ events e. Keeps-if _ _ _ Keeps-none (
        Keeps-some (
          InOrder-with_event _ _ k₁
            (AreCalls-list_add k₁ _ call (made.waiting _) (
              (SameOrder-with_syscall call waiting k refl refl (λ r. r)).calls call
                (IsRequest-IsCall h)))
            made))
