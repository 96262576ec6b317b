-- ===== src/Kernel/Calls/Turns.antt =====
-- The turns that a function takes in the loop of kernelMain until it returns.
use mathlib.Core.Option.{some-injective}
use mathlib.Core.Path.{subst}
use honey_os.Base.{
  Bool-cases, inl, inr, ℕ, ◌<◌, ◌-◌, ◌≡◌, ◌≢◌, refl, sym, ◌∙◌, true, false, Option, none, some,
  List, [], ◌∷◌, arith, ◌==◌, ==_iff, if◌then◌else◌, update, ◌&&◌, ◌>>=◌, >>=-eq-some,
}
use honey_os.Memory.Mapping.{get_physical_address}
use honey_os.Memory.Pages.{free_page}
use honey_os.Lists.{list_pop_first}
use honey_os.Lists.Laws.{list_add-append, count_of-append}
use honey_os.Kernel.State.{KernelState, with_syscall, return_to, enqueue, with_memory}
use honey_os.Kernel.Events.Await.{IsAnswered}
use honey_os.Kernel.Calls.{
  Handler, Request, Activity, requests, answer_super, finalize_call, handle_syscall, end_run,
  on_interrupts, resume, process_syscall, kernel_round, kernel_rounds,
}
use honey_os.Kernel.Order.{Mark, mark_of, InOrder, InOrder-marked, SameOrder-InOrder}
use honey_os.Kernel.Order.Changes.{InOrder-with_queue, SameOrder-others}
use honey_os.Kernel.Order.Resume.{on_interrupts-Keeps, on_interrupts-Runs}
use honey_os.Kernel.Order.Round.{left-AreCalls}

-- A turn of a service: rounds of the kernel until its call is the next one, then the interrupts while
-- it runs, and what it asks for.
pub record Turn : Type 0 where
  pub others : List Activity
  pub interrupts : List ℕ
  pub request : Request

abbrev pub activity : Turn → Activity
activity turn = record { interrupts = turn.interrupts; ending = requests turn.request }

-- The round in which call `running` is resumed, none if it is not its turn.
abbrev pub own_round : List Handler → List ℕ → ℕ → Turn → KernelState → Option KernelState
own_round handlers behind running turn k =
    let round = kernel_round handlers behind (activity turn) k in
    if (k.syscall_at running).resume && ((list_pop_first k.calls_to_process).0 == running)
    then round
    else none

abbrev pub take_turn : List Handler → List ℕ → ℕ → Turn → KernelState → Option KernelState
take_turn handlers behind running turn k =
    kernel_rounds handlers behind turn.others k >>= own_round handlers behind running turn

-- The function that runs in call `running` takes its turns; each but the last makes the call that is
-- resumed at the next.
abbrev pub run_function :
    List Handler → List ℕ → ℕ → List Turn → Turn → KernelState → Option KernelState
run_function handlers behind running [] last k = take_turn handlers behind running last k
run_function handlers behind running (turn ∷ turns) last k =
    take_turn handlers behind running turn k >>= λ k₁.
    run_function handlers behind (k₁.next_object - 1) turns last k₁

abbrev pub AskOn : List Turn → Type 0
AskOn [] = Unit
AskOn (turn ∷ turns) = (turn.request.function ≢ 0) × AskOn turns

-- A call is being answered: what runs for it is the call `running`.
pub record RunsFor (call running : ℕ) (k : KernelState) : Type 0 where
  pub order : InOrder (mark_of call k) k
  pub requests : (k.syscall_at call).function ≡ 2
  pub present : running ≢ 0
  pub created : running < k.next_object
  pub responds : (k.syscall_at running).responding_to ≡ call

pub RunsFor-kept :
    (call running : ℕ) (k k' : KernelState)
    → ((mark : Mark) → InOrder mark k → InOrder mark k')
    → RunsFor call running k
    → RunsFor call running k'
RunsFor-kept call running k k' keep runs =
    let own = keep (mark_of call k) runs.order in
    let other = keep (mark_of running k) (InOrder-marked running k runs.created runs.order) in
    record {
      order = InOrder-marked call k' own.beyond own;
      requests = own.function ∙ runs.requests;
      present = runs.present;
      created = other.beyond;
      responds = other.responds ∙ runs.responds;
    }

-- The call runs, and what it asks for is handled.
pub record Asks (call running : ℕ) (request : Request) (k k' : KernelState) : Type 0 where
  pub before : KernelState
  pub runs : RunsFor call running before
  pub current : before.current_syscall ≡ running
  pub handled : handle_syscall request before ≡ some k'

-- Its turn comes only where it is the first call of the queue and is to be resumed.
own_round-resume :
    (handlers : List Handler) (behind : List ℕ) (running : ℕ) (turn : Turn) (k k' : KernelState)
    → running ≢ 0
    → own_round handlers behind running turn k ≡ some k'
    → resume behind running
        (activity turn)
        (record k { calls_to_process = (list_pop_first k.calls_to_process).1 })
      ≡ some k'
unfolding kernel_round process_syscall
own_round-resume handlers behind running turn k k' present e =
    let popped = list_pop_first k.calls_to_process in
    let round = kernel_round handlers behind (activity turn) k in
    elim (Bool-cases (k.syscall_at running).resume) [
      | inr n ↦ let bad : none ≡ some k' = sym (rw n refl) ∙ e in cc
      | inl r ↦ elim (Bool-cases (popped.0 == running)) [
        | inr n ↦ let bad : none ≡ some k' = sym (rw (r, n) refl) ∙ e in cc
        | inl first ↦
            let own : popped.0 ≡ running = (==_iff _ _).0 first in
            let nonzero : (running == 0) ≡ false = ground arith in
            let same : own_round handlers behind running turn k ≡ round = rw (r, first) refl in
            let resumed : round
                ≡ resume behind running (activity turn) (record k { calls_to_process = popped.1 }) =
              rw (own, nonzero, r) refl in
            sym resumed ∙ sym same ∙ e
      ]
    ]

pub own_round-Asks :
    (handlers : List Handler) (behind : List ℕ) (call running : ℕ) (turn : Turn)
    (k k' : KernelState)
    → RunsFor call running k
    → own_round handlers behind running turn k ≡ some k'
    → Asks call running turn.request k k'
unfolding resume end_run
own_round-Asks handlers behind call running turn k k' runs e =
    let left = record k { calls_to_process = (list_pop_first k.calls_to_process).1 } in
    let k₀ = record left { current_syscall = running } in
    let (k₃, s, e₁) =
      >>=-eq-some (on_interrupts behind turn.interrupts k₀) _
        (own_round-resume handlers behind running turn k k' runs.present e) in
    let left_order : (mark : Mark) → InOrder mark k → InOrder mark k₀ = λ mark order.
      SameOrder-InOrder left k₀ (SameOrder-others left k₀ (omega arith) refl refl refl) (
        InOrder-with_queue (list_pop_first k.calls_to_process).1 k
          (left-AreCalls k k.calls_to_process order.queued) order) in
    record {
      before = k₃;
      runs =
          RunsFor-kept call running k k₃
            (λ mark order.
              (on_interrupts-Keeps behind turn.interrupts k₀ (left_order mark order)).in_order k₃ s)
            runs;
      current =
          (on_interrupts-Runs behind turn.interrupts k₀ k₃ (omega (arith, runs.created)) s).current;
      handled = e₁;
    }

answer_super-IsAnswered :
    (call value : ℕ) (k : KernelState)
    → (k.syscall_at call).function ≡ 2
    → (k.syscall_at k.current_syscall).responding_to ≡ call
    → call ≢ 0
    → IsAnswered call value (answer_super value k)
unfolding answer_super return_to with_syscall enqueue update
answer_super-IsAnswered call value k function responds h =
    let e = responds in
    let two : ((k.syscall_at call).function == 2) ≡ true = ground (arith, function) in
    let nonzero : (call == 0) ≡ false = ground arith in
    let queue = k.calls_to_process in
    rw (answer_super, e, nonzero, two)
      record {
        queued = ground (arith, list_add-append queue call, count_of-append queue (call ∷ []) call);
        result = ground arith;
      }

pub finalize_call-IsAnswered :
    (call value : ℕ) (k k' : KernelState)
    → (k.syscall_at call).function ≡ 2
    → (k.syscall_at k.current_syscall).responding_to ≡ call
    → call ≢ 0
    → finalize_call value k ≡ some k'
    → IsAnswered call value k'
unfolding finalize_call with_memory
finalize_call-IsAnswered call value k k' function responds h e =
    let current = k.syscall_at k.current_syscall in
    let space = (k.service_at current.service).space in
    let m = (get_physical_address space current.esp k.memory).1 in
    let (memory, _, e₁) = >>=-eq-some (free_page current.esp m) _ e in
    subst (λ x. IsAnswered call value x) (some-injective _ _ e₁)
      (answer_super-IsAnswered call value (with_memory memory k) function responds h)
