-- ===== src/Kernel/Order/Round.antt =====
-- The order of the calls in the loop of kernelMain (src/kernel/main.c).
use mathlib.Core.Option.{some-injective}
use mathlib.Core.Path.{subst}
use honey_os.Base.{
  ℕ, zero, suc, ◌≡◌, ◌≢◌, refl, inl, inr, true, false, Option, none, some, List, [], ◌∷◌, ◌==◌, ◌⊎◌,
  arith, get_elem?,
}
use honey_os.Lists.{list_pop_first}
use honey_os.Kernel.State.{KernelState}
use honey_os.Kernel.Machine.{Machine}
use honey_os.Kernel.Calls.{Handler, Activity, process_syscall, kernel_round, kernel_rounds}
use honey_os.Kernel.Order.{
  Mark, mark_of, IsCall, IsRequest, IsRequest-IsCall, AreCalls, InOrder, InOrder-marked,
  InOrder-IsRequest,
}
use honey_os.Kernel.Order.Changes.{InOrder-with_queue}
use honey_os.Kernel.Order.Handlers.{Keeps, Keeps-some, Keeps-bind}
use honey_os.Kernel.Order.Table.{HandlerKeeps, AllKeep}
use honey_os.Kernel.Order.Resume.{
  on_interrupts-Keeps, resume-Keeps, reschedule-InOrder, Keeps-split,
}

AllKeep-get_elem? :
    (handlers : List Handler) (i : ℕ) (handler : Handler)
    → AllKeep handlers
    → get_elem? handlers i ≡ some handler
    → HandlerKeeps handler
AllKeep-get_elem? [] i handler keep e = ground arith
AllKeep-get_elem? (h ∷ handlers) zero handler keep e =
    subst (λ x. HandlerKeeps x) (some-injective _ _ e) keep.0
AllKeep-get_elem? (h ∷ handlers) (suc i) handler keep e =
    AllKeep-get_elem? handlers i handler keep.1 e

-- The handler of the table, or none.
handled-Keeps :
    (b : Mark) (handlers : List Handler) (i call : ℕ) (k : KernelState) (found : Option Handler)
    → AllKeep handlers
    → get_elem? handlers i ≡ found
    → IsRequest k call
    → InOrder b k
    → Keeps b (elim found [ none ↦ some k | some handler ↦ handler call k ])
handled-Keeps b handlers i call k none keep e h order = Keeps-some order
handled-Keeps b handlers i call k (some handler) keep e h order =
    AllKeep-get_elem? handlers i handler keep e b call k h order

-- A call that does not resume was made by a service.
not_resumed-IsRequest :
    (call : ℕ) (k : KernelState)
    → IsCall k call
    → (k.syscall_at call).resume ≡ false
    → IsRequest k call
not_resumed-IsRequest call k is n = record {
  present = is.present;
  created = is.created;
  function = made is.made;
}
  where
    made :
        ((k.syscall_at call).function ≢ 0) ⊎ ((k.syscall_at call).resume ≡ true)
        → (k.syscall_at call).function ≢ 0
    made (inl h) = h
    made (inr r) = λ z. ground arith

process_syscall-Keeps :
    (b : Mark) (handlers : List Handler) (behind : List ℕ) (activity : Activity) (call : ℕ)
    (k : KernelState)
    → AllKeep handlers
    → IsCall k call
    → InOrder b k
    → Keeps b (process_syscall handlers behind activity call k)
unfolding process_syscall
process_syscall-Keeps b handlers behind activity call k keep is order =
    let i = (k.syscall_at call).function in
    Keeps-split (k.syscall_at call).resume _ _ (λ r. resume-Keeps behind call activity k is order)
      (λ n.
        let request = not_resumed-IsRequest call k is n in
        let marked = InOrder-marked call k request.created order in
        let own = handled-Keeps (mark_of call k) handlers i call k _ keep refl request marked in
        let rest = handled-Keeps b handlers i call k _ keep refl request order in
        Keeps-bind _ _ λ k₁ e. Keeps-some (
          reschedule-InOrder call k₁
            (IsRequest-IsCall (InOrder-IsRequest call k k₁ request (own.in_order k₁ e)))
            (rest.in_order k₁ e)))

-- The calls that the queue leaves, and its first call.
pub left-AreCalls :
    (k : KernelState) (calls : List ℕ) → AreCalls k calls → AreCalls k (list_pop_first calls).1
unfolding list_pop_first
left-AreCalls k [] are = tt
left-AreCalls k (call ∷ calls) are = are.1

first-IsCall :
    (k : KernelState) (calls : List ℕ)
    → AreCalls k calls
    → ((list_pop_first calls).0 == 0) ≡ false
    → IsCall k (list_pop_first calls).0
unfolding list_pop_first
first-IsCall k [] are e = ground arith
first-IsCall k (call ∷ calls) are e = are.0

pub next_call-Keeps :
    (b : Mark) (handlers : List Handler) (behind : List ℕ) (activity : Activity) (k : KernelState)
    → AllKeep handlers
    → InOrder b k
    → Keeps b (kernel_round handlers behind activity k)
unfolding kernel_round
next_call-Keeps b handlers behind activity k keep order =
    let popped = list_pop_first k.calls_to_process in
    let k₁ = record k { calls_to_process = popped.1 } in
    let left = InOrder-with_queue popped.1 k (left-AreCalls k _ order.queued) order in
    Keeps-split (popped.0 == 0) _ _ (λ z. on_interrupts-Keeps behind activity.interrupts k₁ left)
      (λ n.
        let is = first-IsCall k _ order.queued n in
        process_syscall-Keeps b handlers behind activity popped.0 k₁ keep
          record { present = is.present; created = is.created; made = is.made } left)

pub rounds-Keeps :
    (b : Mark) (handlers : List Handler) (behind : List ℕ) (activities : List Activity)
    (k : KernelState)
    → AllKeep handlers
    → InOrder b k
    → Keeps b (kernel_rounds handlers behind activities k)
unfolding kernel_rounds
rounds-Keeps b handlers behind [] k keep order = Keeps-some order
rounds-Keeps b handlers behind (activity ∷ activities) k keep order =
    Keeps-bind (kernel_round handlers behind activity k) _ λ k₁ e.
      rounds-Keeps b handlers behind activities k₁ keep
        ((next_call-Keeps b handlers behind activity k keep order).in_order k₁ e)
