-- ===== src/Kernel/Events/Await.antt =====
-- A call that awaits an event is answered when the event is fired with its code.
use honey_os.Base.{
  ℕ, ◌<◌, ◌≡◌, ◌≢◌, refl, ◌∙◌, true, false, Option, some, List, [], ◌∷◌, ◌++◌, update, ◌>>=◌, arith,
  ◌==◌, if◌then◌else◌,
}
use honey_os.Lists.{list_add, list_get}
use honey_os.Lists.Laws.{list_add-append, count_of, count_of-append}
use honey_os.Kernel.State.{Syscall, KernelState, with_syscall, with_event}
use honey_os.Kernel.Schedule.{schedule_all}
use honey_os.Kernel.Events.{
  keeps_waiting, answer_waiting, answer_calls, fire_event, event_list, handle_await_syscall,
}
use honey_os.Kernel.Events.Fire.{
  waits_for_other, keeps_waiting-waits_for_other, kept, released, Answered, answer_waiting-Answered,
  HaveResult,
}

-- How often a call is among those that are kept waiting, and among the others.
count_of-kept :
    (code call : ℕ) (store : ℕ → Syscall) (calls : List ℕ)
    → count_of (kept code store calls) call
      ≡ (if waits_for_other code (store call) then count_of calls call else 0)
count_of-kept code call store [] = ground arith
count_of-kept code call store (other ∷ calls) = ground (arith, count_of-kept code call store calls)

count_of-released :
    (code call : ℕ) (store : ℕ → Syscall) (calls : List ℕ)
    → count_of (released code store calls) call
      ≡ (if waits_for_other code (store call) then 0 else count_of calls call)
count_of-released code call store [] = ground arith
count_of-released code call store (other ∷ calls) =
    ground (arith, count_of-released code call store calls)

HaveResult-count_of :
    (value call : ℕ) (k : KernelState) (calls : List ℕ)
    → HaveResult value k calls
    → 0 < count_of calls call
    → (k.syscall_at call).return_value ≡ value
HaveResult-count_of value call k [] all h = omega (arith, h)
HaveResult-count_of value call k (other ∷ calls) all h =
    ground (arith, all.0, HaveResult-count_of value call k calls all.1)

-- A call waits for an event that no function is subscribed to.
record Waits (call event : ℕ) (k : KernelState) : Type 0 where
  listed : 0 < count_of (k.event_at event).waiting_syscalls call
  unsubscribed : (k.event_at event).subscriptions ≡ []

fire_event_unsubscribed :
    (event value code : ℕ) (behind : List ℕ) (k : KernelState)
    → (k.event_at event).subscriptions ≡ []
    → fire_event event value code behind k ≡ some (answer_calls event value code k)
unfolding fire_event schedule_all
fire_event_unsubscribed event value code behind k h = rw h refl

module _ (call event value code : ℕ) (k : KernelState) (waits : Waits call event k) where
  divided :
      let calls = (k.event_at event).waiting_syscalls in
      let after = answer_waiting value code calls [] k in
      Answered value code calls [] after.0 k after.1
  divided = answer_waiting-Answered value code (k.event_at event).waiting_syscalls [] k

  parameter-answer_calls :
      ((answer_calls event value code k).syscall_at call).parameter2
      ≡ (k.syscall_at call).parameter2
  unfolding answer_calls with_event
  parameter-answer_calls = divided.parameters call

  -- A code that is not the call's keeps it waiting.
  answer_calls-Waits :
      keeps_waiting code (k.syscall_at call) ≡ true
      → Waits call event (answer_calls event value code k)
  unfolding answer_calls with_event update
  answer_calls-Waits h = record {
    listed =
        let same = keeps_waiting-waits_for_other code (k.syscall_at call) in
        let n = count_of-kept code call k.syscall_at (k.event_at event).waiting_syscalls in
        ground (arith, divided.waits, n, waits.listed, h, same);
    unsubscribed = ground (arith, divided.events, waits.unsubscribed);
  }

  -- Its code answers it.
  answer_calls-result :
      keeps_waiting code (k.syscall_at call) ≡ false
      → (0 < count_of (answer_calls event value code k).calls_to_process call)
        × (((answer_calls event value code k).syscall_at call).return_value ≡ value)
  unfolding answer_calls with_event
  answer_calls-result h =
      let calls = (k.event_at event).waiting_syscalls in
      let same = keeps_waiting-waits_for_other code (k.syscall_at call) in
      let n = count_of-released code call k.syscall_at calls in
      let some_released : 0 < count_of (released code k.syscall_at calls) call =
        ground (arith, n, waits.listed, h) in
      (
        rw
            (
              divided.queue,
              count_of-append k.calls_to_process (released code k.syscall_at calls) call,
            )
            (omega (arith, some_released)),
        HaveResult-count_of value call (answer_waiting value code calls [] k).1
            (released code k.syscall_at calls) divided.results some_released,
      )

-- An event that is fired with one value and code after the other.
abbrev pub fire_all :
    (event : ℕ) → (behind : List ℕ) → List (ℕ × ℕ) → KernelState → Option KernelState
fire_all event behind [] k = some k
fire_all event behind (fire ∷ fires) k =
    fire_event event fire.0 fire.1 behind k >>= fire_all event behind fires

-- No fire of a list has a certain code.
abbrev pub HaveOtherCode : ℕ → List (ℕ × ℕ) → Type 0
HaveOtherCode code [] = Unit
HaveOtherCode code (fire ∷ fires) = (fire.1 ≢ code) × HaveOtherCode code fires

-- A call got its result and stands in the queue.
pub record IsAnswered (call value : ℕ) (k : KernelState) : Type 0 where
  pub queued : 0 < count_of k.calls_to_process call
  pub result : (k.syscall_at call).return_value ≡ value

keeps_waiting-other :
    (code other : ℕ) (call : Syscall)
    → call.parameter2 ≡ code
    → code ≢ 0
    → other ≢ code
    → keeps_waiting other call ≡ true
unfolding keeps_waiting
keeps_waiting-other code other call e h₀ h = ground arith

keeps_waiting_not :
    (code : ℕ) (call : Syscall) → call.parameter2 ≡ code → keeps_waiting code call ≡ false
unfolding keeps_waiting
keeps_waiting_not code call e = ground arith

fire_all-answers :
    (call event value code : ℕ) (behind : List ℕ) (others : List (ℕ × ℕ)) (k : KernelState)
    → Waits call event k
    → (k.syscall_at call).parameter2 ≡ code
    → code ≢ 0
    → HaveOtherCode code others
    → (k' : KernelState) × (fire_all event behind (others ++ (value, code) ∷ []) k ≡ some k')
      × IsAnswered call value k'
fire_all-answers call event value code behind [] k waits e h₀ h =
    let answered =
      answer_calls-result call event value code k waits
        (keeps_waiting_not code (k.syscall_at call) e) in
    (
      answer_calls event value code k,
      rw (fire_event_unsubscribed event value code behind k waits.unsubscribed) refl,
      record { queued = answered.0; result = answered.1 },
    )
fire_all-answers call event value code behind ((v, c) ∷ others) k waits e h₀ h =
    let k₁ = answer_calls event v c k in
    let kept = keeps_waiting-other code c (k.syscall_at call) e h₀ h.0 in
    let (k', fired, answered) =
      fire_all-answers call event value code behind others k₁
        (answer_calls-Waits call event v c k waits kept)
        (parameter-answer_calls call event v c k waits ∙ e) h₀ h.1 in
    (k', rw (fire_event_unsubscribed event v c behind k waits.unsubscribed) fired, answered)

-- The state in which a call waits for an event.
abbrev waiting_state : (call event : ℕ) → KernelState → KernelState
waiting_state call event k =
    let k₁ = with_syscall call (record (k.syscall_at call) { avoid_reschedule = true }) k in
    let old = k₁.event_at event in
    with_event event (record old { waiting_syscalls = list_add old.waiting_syscalls call }) k₁

handle_await_syscall_lem :
    (call event : ℕ) (events : List ℕ) (k : KernelState)
    → event_list (k.syscall_at call).parameter0 k ≡ some events
    → list_get events (k.syscall_at call).parameter1 ≡ event
    → event ≢ 0
    → handle_await_syscall call k ≡ some (waiting_state call event k)
unfolding handle_await_syscall event_list with_syscall
handle_await_syscall_lem call event events k e e' h =
    let nonzero : (event == 0) ≡ false = ground arith in rw (e, e', nonzero) refl

parameter-waiting_state :
    (call event : ℕ) (k : KernelState)
    → ((waiting_state call event k).syscall_at call).parameter2 ≡ (k.syscall_at call).parameter2
unfolding with_event with_syscall update
parameter-waiting_state call event k = ground arith

waiting_state-Waits :
    (call event : ℕ) (k : KernelState)
    → (k.event_at event).subscriptions ≡ []
    → Waits call event (waiting_state call event k)
unfolding with_event with_syscall update
waiting_state-Waits call event k h = record {
  listed =
      let waiting = (k.event_at event).waiting_syscalls in
      ground (arith, list_add-append waiting call, count_of-append waiting (call ∷ []) call);
  unsubscribed = ground arith;
}

-- A call awaits an event with a code other than 0 as its third parameter, and no function is subscribed to the event. Then, however often the event is fired with other codes, the next fire with this code succeeds and puts the call in the queue with its value as the result.
pub handle_await_syscall-IsAnswered :
    (call event value : ℕ) (behind events : List ℕ) (others : List (ℕ × ℕ)) (k : KernelState)
    → event_list (k.syscall_at call).parameter0 k ≡ some events
    → list_get events (k.syscall_at call).parameter1 ≡ event
    → event ≢ 0
    → (k.event_at event).subscriptions ≡ []
    → (k.syscall_at call).parameter2 ≢ 0
    → HaveOtherCode (k.syscall_at call).parameter2 others
    → (k₁ : KernelState) × (k' : KernelState) × (handle_await_syscall call k ≡ some k₁)
      × (fire_all event behind (others ++ (value, (k.syscall_at call).parameter2) ∷ []) k₁
          ≡ some k')
      × IsAnswered call value k'
handle_await_syscall-IsAnswered call event value behind events others k e e' h u h₀ other =
    let k₁ = waiting_state call event k in
    let code = (k.syscall_at call).parameter2 in
    let same : (k₁.syscall_at call).parameter2 ≡ code = parameter-waiting_state call event k in
    let (k', fired, answered) =
      fire_all-answers call event value code behind others k₁ (waiting_state-Waits call event k u)
        same h₀ other in
    (k₁, k', handle_await_syscall_lem call event events k e e' h, fired, answered)
