-- ===== src/Kernel/Order.antt =====
-- The order of the calls: each responds to none or to an older one, which is a call, and what waits or
-- is in the queue are calls. The age of a call is its number, since no pointer is given out twice.
pub mod Added
pub mod Changes
pub mod Handlers
pub mod Resume
pub mod Round
pub mod Services
pub mod Table
pub mod Machine
use mathlib.Core.Path.{subst}
use honey_os.Base.{
  ℕ, zero, suc, ◌+◌, ◌≤◌, ◌<◌, ◌≡◌, ◌≢◌, refl, sym, ap, ◌∙◌, inl, inr, Bool, true, false, Option,
  none, some, List, [], ◌∷◌, ◌++◌, ◌==◌, ==_iff, ◌⊎◌, if◌then◌else◌, update, Bool-cases, arith,
}
use honey_os.Memory.Mapping.{Memory}
use honey_os.Lists.{list_add}
use honey_os.Kernel.State.{
  Syscall, Service, ServiceFunction, Event, KernelState, with_syscall, return_to, enqueue,
  with_event, with_service, with_memory, new_event, new_function, new_syscall,
}
use honey_os.Kernel.Schedule.Queue.{Started}
use honey_os.Kernel.Services.Chain.{RespondsToOlder}

-- The pointer of a call: not NULL, given out, and of a call that a service made or that runs a function.
pub record IsCall (k : KernelState) (call : ℕ) : Type 0 where
  pub present : call ≢ 0
  pub created : call < k.next_object
  pub made : ((k.syscall_at call).function ≢ 0) ⊎ ((k.syscall_at call).resume ≡ true)

-- A call that a service made.
pub record IsRequest (k : KernelState) (call : ℕ) : Type 0 where
  pub present : call ≢ 0
  pub created : call < k.next_object
  pub function : (k.syscall_at call).function ≢ 0

pub IsRequest-IsCall : {k : KernelState} {call : ℕ} → IsRequest k call → IsCall k call
IsRequest-IsCall request = record {
  present = request.present;
  created = request.created;
  made = inl request.function;
}

abbrev pub AreCalls : KernelState → List ℕ → Type 0
AreCalls k [] = Unit
AreCalls k (call ∷ calls) = IsCall k call × AreCalls k calls

-- NULL, or a call.
abbrev pub IsSuper : KernelState → ℕ → Type 0
IsSuper k call = (call ≡ 0) ⊎ IsCall k call

-- A pointer that was given out, and what its call keeps for ever.
pub record Mark : Type 0 where
  pub call : ℕ
  pub function : ℕ
  pub responding_to : ℕ

abbrev pub mark_of : ℕ → KernelState → Mark
mark_of call k = record {
  call = call;
  function = (k.syscall_at call).function;
  responding_to = (k.syscall_at call).responding_to;
}

pub record InOrder (mark : Mark) (k : KernelState) : Type 0 where
  pub beyond : mark.call < k.next_object
  pub function : (k.syscall_at mark.call).function ≡ mark.function
  pub responds : (k.syscall_at mark.call).responding_to ≡ mark.responding_to
  pub older : RespondsToOlder k
  pub supers : (call : ℕ) → call ≢ 0 → IsSuper k (k.syscall_at call).responding_to
  pub queued : AreCalls k k.calls_to_process
  pub waiting : (event : ℕ) → AreCalls k (k.event_at event).waiting_syscalls

-- Calls stay calls.
abbrev pub CallsStay : (k k' : KernelState) → Type 0
CallsStay k k' = (call : ℕ) → IsCall k call → IsCall k' call

pub AreCalls-stay :
    (k k' : KernelState) (calls : List ℕ) → CallsStay k k' → AreCalls k calls → AreCalls k' calls
AreCalls-stay k k' [] h are = tt
AreCalls-stay k k' (call ∷ calls) h are = (h call are.0, AreCalls-stay k k' calls h are.1)

pub IsSuper-stays :
    (k k' : KernelState) (call : ℕ) → CallsStay k k' → IsSuper k call → IsSuper k' call
IsSuper-stays k k' call h (inl e) = inl e
IsSuper-stays k k' call h (inr is) = inr (h call is)

pub AreCalls-list_add :
    (k : KernelState) (calls : List ℕ) (call : ℕ)
    → AreCalls k calls
    → IsCall k call
    → AreCalls k (list_add calls call)
unfolding list_add
AreCalls-list_add k [] call are h = (h, tt)
AreCalls-list_add k (c ∷ calls) call are h = (are.0, AreCalls-list_add k calls call are.1 h)

-- Where the calls are the same and pointers are only added.
pub CallsStay-same :
    (k k' : KernelState)
    → k.next_object ≤ k'.next_object
    → k'.syscall_at ≡ k.syscall_at
    → CallsStay k k'
CallsStay-same k k' h same call is = record {
  present = is.present;
  created = omega (arith, h, is.created);
  made =
      subst (λ (f : ℕ → Syscall). ((f call).function ≢ 0) ⊎ ((f call).resume ≡ true)) (sym same)
        is.made;
}

-- The changes that leave the calls, the queue and the events alone.
pub record SameOrder (k k' : KernelState) : Type 0 where
  pub grows : k.next_object ≤ k'.next_object
  pub chains : (call : ℕ) → (k'.syscall_at call).responding_to ≡ (k.syscall_at call).responding_to
  pub functions : (call : ℕ) → (k'.syscall_at call).function ≡ (k.syscall_at call).function
  pub calls : CallsStay k k'
  pub queue : k'.calls_to_process ≡ k.calls_to_process
  pub waits :
      (event : ℕ)
      → AreCalls k (k.event_at event).waiting_syscalls
      → AreCalls k' (k'.event_at event).waiting_syscalls

pub SameOrder-InOrder :
    {mark : Mark} (k k' : KernelState) → SameOrder k k' → InOrder mark k → InOrder mark k'
SameOrder-InOrder {mark} k k' same order = record {
  beyond = omega (arith, same.grows, order.beyond);
  function = same.functions mark.call ∙ order.function;
  responds = same.chains mark.call ∙ order.responds;
  older = λ call h. subst (λ x. x < call) (sym (same.chains call)) (order.older call h);
  supers = λ call h.
      subst (λ x. IsSuper k' x) (sym (same.chains call))
        (IsSuper-stays k k' _ same.calls (order.supers call h));
  queued =
      subst (λ l. AreCalls k' l) (sym same.queue)
        (AreCalls-stay k k' k.calls_to_process same.calls order.queued);
  waiting = λ event. same.waits event (order.waiting event);
}

-- Any pointer that was given out may be marked.
pub InOrder-marked :
    {mark : Mark} (call : ℕ) (k : KernelState)
    → call < k.next_object
    → InOrder mark k
    → InOrder (mark_of call k) k
InOrder-marked call k h order = record {
  beyond = h;
  function = refl;
  responds = refl;
  older = order.older;
  supers = order.supers;
  queued = order.queued;
  waiting = order.waiting;
}

-- A call that a service made stays one, where the state is kept in order.
pub InOrder-IsRequest :
    (call : ℕ) (k k' : KernelState)
    → IsRequest k call
    → InOrder (mark_of call k) k'
    → IsRequest k' call
InOrder-IsRequest call k k' request order = record {
  present = request.present;
  created = order.beyond;
  function = λ e. request.function (sym order.function ∙ e);
}
