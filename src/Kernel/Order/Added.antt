-- ===== src/Kernel/Order/Added.antt =====
-- A call that is added to the calls keeps their order.
use mathlib.Core.Path.{subst}
use honey_os.Base.{
  ℕ, ◌+◌, ◌<◌, ◌≡◌, ◌≢◌, sym, ap, ◌∙◌, inl, inr, true, ◌==◌, ==_iff, ◌⊎◌, Bool-cases, arith,
}
use honey_os.Kernel.State.{Syscall, ServiceFunction, KernelState}
use honey_os.Kernel.Schedule.Queue.{Started}
use honey_os.Kernel.Order.{
  IsCall, AreCalls, IsSuper, Mark, InOrder, CallsStay, AreCalls-stay, IsSuper-stays,
  AreCalls-list_add,
}

-- A new call behind all others, with the others as they were.
pub record IsAdded (k k' : KernelState) : Type 0 where
  pub next : k'.next_object ≡ k.next_object + 1
  pub keeps : (call : ℕ) → call ≢ k.next_object → k'.syscall_at call ≡ k.syscall_at call
  pub is : IsCall k' k.next_object
  pub super : IsSuper k (k'.syscall_at k.next_object).responding_to

module _ (k k' : KernelState) (added : IsAdded k k') where
  pub IsAdded-stay : CallsStay k k'
  IsAdded-stay call is =
      let same = added.keeps call (λ e. omega (arith, is.created, e)) in
      record {
        present = is.present;
        created = omega (arith, added.next, is.created);
        made = subst (λ (c : Syscall). (c.function ≢ 0) ⊎ (c.resume ≡ true)) (sym same) is.made;
      }

  IsAdded-older : (n : ℕ) → IsSuper k n → 0 < k.next_object → n < k.next_object
  IsAdded-older n (inl e) h = omega (arith, e, h)
  IsAdded-older n (inr is) h = is.created

  pub IsAdded-InOrder :
      {mark : Mark} (queue : AreCalls k' k'.calls_to_process) (events : k'.event_at ≡ k.event_at)
      → InOrder mark k
      → InOrder mark k'
  IsAdded-InOrder {mark} queue events order =
      let marked = added.keeps mark.call (λ e. omega (arith, order.beyond, e)) in
      record {
        beyond = omega (arith, added.next, order.beyond);
        function = ap (λ c. c.function) marked ∙ order.function;
        responds = ap (λ c. c.responding_to) marked ∙ order.responds;
        older = λ call h. elim (Bool-cases (call == k.next_object)) [
          | inl e ↦
              let own : k.next_object ≡ call = sym ((==_iff call k.next_object).0 e) in
              subst (λ c. (k'.syscall_at c).responding_to < c) own
                (IsAdded-older _ added.super (omega (arith, order.beyond)))
          | inr n ↦
              subst (λ (c : Syscall). c.responding_to < call)
                (sym (added.keeps call (λ e. ground arith))) (order.older call h)
        ];
        supers = λ call h. elim (Bool-cases (call == k.next_object)) [
          | inl e ↦
              let own : k.next_object ≡ call = sym ((==_iff call k.next_object).0 e) in
              subst (λ c. IsSuper k' (k'.syscall_at c).responding_to) own
                (IsSuper-stays k k' _ IsAdded-stay added.super)
          | inr n ↦
              subst (λ (c : Syscall). IsSuper k' c.responding_to)
                (sym (added.keeps call (λ e. ground arith)))
                (IsSuper-stays k k' _ IsAdded-stay (order.supers call h))
        ];
        queued = queue;
        waiting = λ event.
            subst (λ f. AreCalls k' (f event).waiting_syscalls) (sym events)
              (AreCalls-stay k k' (k.event_at event).waiting_syscalls IsAdded-stay
                (order.waiting event));
      }

pub Started-IsAdded :
    (provider : ServiceFunction) (responding_to : ℕ) (k k' : KernelState)
    → Started provider responding_to k k'
    → IsSuper k responding_to
    → 0 < k.next_object
    → IsAdded k k'
Started-IsAdded provider responding_to k k' started h positive = record {
  next = started.next;
  keeps = started.keeps;
  is = record {
    present = λ e. omega (arith, e, positive);
    created = omega (arith, started.next);
    made = inr started.resumes;
  };
  super = subst (λ x. IsSuper k x) (sym started.responds) h;
}

pub InOrder-Started :
    {mark : Mark} (provider : ServiceFunction) (responding_to : ℕ) (k k' : KernelState)
    → Started provider responding_to k k'
    → IsSuper k responding_to
    → InOrder mark k
    → InOrder mark k'
InOrder-Started provider responding_to k k' started h order =
    let added =
      Started-IsAdded provider responding_to k k' started h (omega (arith, order.beyond)) in
    IsAdded-InOrder k k' added
      (subst (λ l. AreCalls k' l) (sym started.queue)
        (AreCalls-list_add k' k.calls_to_process k.next_object
          (AreCalls-stay k k' k.calls_to_process (IsAdded-stay k k' added) order.queued) added.is))
      started.events order
