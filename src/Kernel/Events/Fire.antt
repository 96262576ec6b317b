-- ===== src/Kernel/Events/Fire.antt =====
-- `fireEvent` divides the calls that wait for an event: those that are answered go to the queue, the
-- others go on waiting.
use mathlib.Core.Option.{some-injective}
use mathlib.Core.List.{append-nil}
use mathlib.Core.Path.{subst}
use honey_os.Base.{
  Bool, true, false, ◌==◌, if◌then◌else◌, ℕ, ◌<◌, ◌≡◌, refl, sym, ap, ◌∙◌, some, List, [], ◌∷◌,
  ◌++◌, inl, inr, update, >>=-eq-some, arith, Bool-cases, ==_iff,
}
use honey_os.Lists.{list_add}
use honey_os.Lists.Laws.{list_add-behind}
use honey_os.Kernel.State.{Syscall, KernelState, return_to, with_syscall, enqueue, with_event}
use honey_os.Kernel.Schedule.{schedule_all}
use honey_os.Kernel.Schedule.Queue.{StartedEach, AllStarted, schedule_all-AllStarted}
use honey_os.Kernel.Events.{keeps_waiting, answer_waiting, answer_calls, fire_event}

-- A call waits for a code, and for another one than `code`.
abbrev pub waits_for_other : ℕ → Syscall → Bool
waits_for_other code call =
    if call.parameter2 == 0 then false else if call.parameter2 == code then false else true

pub keeps_waiting-waits_for_other :
    (code : ℕ) (call : Syscall) → keeps_waiting code call ≡ waits_for_other code call
unfolding keeps_waiting
keeps_waiting-waits_for_other code call = ground arith

-- The calls of a list that code `code` keeps waiting, and the others.
abbrev pub kept : ℕ → (ℕ → Syscall) → List ℕ → List ℕ
kept code store [] = []
kept code store (call ∷ calls) =
    let rest = kept code store calls in
    if waits_for_other code (store call) then call ∷ rest else rest

abbrev pub released : ℕ → (ℕ → Syscall) → List ℕ → List ℕ
released code store [] = []
released code store (call ∷ calls) =
    let rest = released code store calls in
    if waits_for_other code (store call) then rest else call ∷ rest

-- All calls of a list have been created.
abbrev pub AreCreated : KernelState → List ℕ → Type 0
AreCreated k [] = Unit
AreCreated k (call ∷ calls) = (call < k.next_object) × AreCreated k calls

-- All calls of a list have the same result.
abbrev pub HaveResult : ℕ → KernelState → List ℕ → Type 0
HaveResult value k [] = Unit
HaveResult value k (call ∷ calls) =
    ((k.syscall_at call).return_value ≡ value) × HaveResult value k calls

-- A call but for its result.
abbrev pub without_result : Syscall → Syscall
without_result call = record call { return_value = 0 }

-- A list of calls was gone through: `waiting` is what was collected.
pub record Answered (value code : ℕ) (calls collected waiting : List ℕ) (k k' : KernelState)
    : Type 0 where
  pub waits : waiting ≡ collected ++ kept code k.syscall_at calls
  pub queue : k'.calls_to_process ≡ k.calls_to_process ++ released code k.syscall_at calls
  pub results : HaveResult value k' (released code k.syscall_at calls)
  pub stays :
      (call : ℕ)
      → (k.syscall_at call).return_value ≡ value
      → (k'.syscall_at call).return_value ≡ value
  pub events : k'.event_at ≡ k.event_at
  pub others : (call : ℕ) → without_result (k'.syscall_at call) ≡ without_result (k.syscall_at call)
  pub words : k'.words ≡ k.words
  pub parameters : (call : ℕ) → (k'.syscall_at call).parameter2 ≡ (k.syscall_at call).parameter2

waits_for_other-return_to :
    (code call value other : ℕ) (k : KernelState)
    → waits_for_other code ((return_to call value k).syscall_at other)
      ≡ waits_for_other code (k.syscall_at other)
unfolding return_to with_syscall update
waits_for_other-return_to code call value other k = ground arith

released-return_to :
    (code call value : ℕ) (k : KernelState) (calls : List ℕ)
    → released code (return_to call value k).syscall_at calls ≡ released code k.syscall_at calls
released-return_to code call value k [] = refl
released-return_to code call value k (other ∷ calls) =
    rw
      (
        waits_for_other-return_to code call value other k,
        released-return_to code call value k calls,
      )
      refl

kept-return_to :
    (code call value : ℕ) (k : KernelState) (calls : List ℕ)
    → kept code (return_to call value k).syscall_at calls ≡ kept code k.syscall_at calls
kept-return_to code call value k [] = refl
kept-return_to code call value k (other ∷ calls) =
    rw (waits_for_other-return_to code call value other k, kept-return_to code call value k calls)
      refl

-- A call that has its result keeps it when another call, or itself, gets the same one.
result-return_to :
    (call value other : ℕ) (k : KernelState)
    → (k.syscall_at other).return_value ≡ value
    → ((return_to call value k).syscall_at other).return_value ≡ value
unfolding return_to with_syscall update
result-return_to call value other k h = ground arith

parameter-return_to :
    (call value other : ℕ) (k : KernelState)
    → ((return_to call value k).syscall_at other).parameter2 ≡ (k.syscall_at other).parameter2
unfolding return_to with_syscall update
parameter-return_to call value other k = ground arith

without_result-return_to :
    (call value other : ℕ) (k : KernelState)
    → without_result ((return_to call value k).syscall_at other)
      ≡ without_result (k.syscall_at other)
unfolding return_to with_syscall update
without_result-return_to call value other k = elim (Bool-cases (call == other)) [
  | inl e ↦
      let same : call ≡ other = (==_iff call other).0 e in
      rw e (ap (λ c. without_result (k.syscall_at c)) same)
  | inr e ↦ rw e refl
]

result-answered :
    (call value : ℕ) (k : KernelState)
    → ((return_to call value k).syscall_at call).return_value ≡ value
unfolding return_to with_syscall update
result-answered call value k = ground arith

pub answer_waiting-Answered :
    (value code : ℕ) (calls collected : List ℕ) (k : KernelState)
    → Answered value code calls collected
        (answer_waiting value code calls collected k).0
        k
        (answer_waiting value code calls collected k).1
unfolding answer_waiting enqueue return_to with_syscall
answer_waiting-Answered value code [] collected k = record {
  waits = sym (append-nil collected);
  queue = sym (append-nil k.calls_to_process);
  results = tt;
  stays = λ call h. h;
  events = refl;
  others = λ call. refl;
  words = refl;
  parameters = λ call. refl;
}
answer_waiting-Answered value code (call ∷ calls) collected k =
    elim (Bool-cases (keeps_waiting code (k.syscall_at call))) [
      | inl e ↦
          let e' = sym (keeps_waiting-waits_for_other code (k.syscall_at call)) ∙ e in
          let rest = answer_waiting-Answered value code calls (list_add collected call) k in
          rw (e, answer_waiting)
            record {
              waits = rest.waits ∙ rw e' (list_add-behind collected _ call);
              queue = rest.queue ∙ rw e' refl;
              results = rw e' rest.results;
              stays = rest.stays;
              events = rest.events;
              others = rest.others;
              words = rest.words;
              parameters = rest.parameters;
            }
      | inr e ↦
          let e' = sym (keeps_waiting-waits_for_other code (k.syscall_at call)) ∙ e in
          let k₁ = enqueue call (return_to call value k) in
          let rest = answer_waiting-Answered value code calls collected k₁ in
          let same = released-return_to code call value k calls in
          rw (e, answer_waiting)
            record {
              waits =
                  rest.waits
                  ∙ rw e' (ap (λ l. collected ++ l) (kept-return_to code call value k calls));
              queue = rest.queue ∙ rw (e', same) (list_add-behind k.calls_to_process _ call);
              results = rw e' (
                rest.stays call (result-answered call value k),
                subst (λ l. HaveResult value (answer_waiting value code calls collected k₁).1 l)
                    same rest.results,
              );
              stays = λ other h. rest.stays other (result-return_to call value other k h);
              events = rest.events;
              others = λ other. rest.others other ∙ without_result-return_to call value other k;
              words = rest.words;
              parameters = λ other. rest.parameters other ∙ parameter-return_to call value other k;
            }
    ]

-- Calls that were created before are divided the same way in a state that keeps them.
module _ (code : ℕ) (k k₁ : KernelState)
    (keeps : (call : ℕ) → call < k.next_object → k₁.syscall_at call ≡ k.syscall_at call) where
  kept-keeps :
      (calls : List ℕ)
      → AreCreated k calls
      → kept code k₁.syscall_at calls ≡ kept code k.syscall_at calls
  kept-keeps [] created = refl
  kept-keeps (call ∷ calls) created = rw (keeps call created.0, kept-keeps calls created.1) refl

  released-keeps :
      (calls : List ℕ)
      → AreCreated k calls
      → released code k₁.syscall_at calls ≡ released code k.syscall_at calls
  released-keeps [] created = refl
  released-keeps (call ∷ calls) created =
      rw (keeps call created.0, released-keeps calls created.1) refl

-- Event `event` was fired with `value` and `code`: the calls that stay waiting; the state `started`
-- behind the start of each function, from which on only results are written; the queue with the
-- functions that were started and the calls that were answered, and the results of these.
pub record Fired (event value code : ℕ) (k k' : KernelState) : Type 0 where
  pub waits :
      (k'.event_at event).waiting_syscalls
      ≡ kept code k.syscall_at (k.event_at event).waiting_syscalls
  pub runs : List ℕ
  pub started : KernelState
  pub each : StartedEach 0 (k.event_at event).subscriptions runs k started
  pub others :
      (call : ℕ) → without_result (k'.syscall_at call) ≡ without_result (started.syscall_at call)
  pub words : k'.words ≡ started.words
  pub queue :
      k'.calls_to_process
      ≡ (k.calls_to_process ++ runs)
        ++ released code k.syscall_at (k.event_at event).waiting_syscalls
  pub results : HaveResult value k' (released code k.syscall_at (k.event_at event).waiting_syscalls)

answer_calls-Fired :
    (event value code : ℕ) (k k₁ : KernelState) {runs : List ℕ}
    → AreCreated k (k.event_at event).waiting_syscalls
    → AllStarted (k.event_at event).subscriptions runs 0 k k₁
    → Fired event value code k (answer_calls event value code k₁)
unfolding answer_calls with_event update
answer_calls-Fired event value code k k₁ {runs} created started =
    let calls = (k.event_at event).waiting_syscalls in
    let e : (k₁.event_at event).waiting_syscalls ≡ calls =
      ap (λ f. (f event).waiting_syscalls) started.events in
    let divided = answer_waiting-Answered value code (k₁.event_at event).waiting_syscalls [] k₁ in
    let same : released code k₁.syscall_at (k₁.event_at event).waiting_syscalls
        ≡ released code k.syscall_at calls =
      rw e (released-keeps code k k₁ started.keeps calls created) in
    record {
      waits =
          ground arith ∙ divided.waits ∙ rw e (kept-keeps code k k₁ started.keeps calls created);
      runs = runs;
      started = k₁;
      each = started.each;
      others = divided.others;
      words = divided.words;
      queue = divided.queue ∙ rw (same, started.queue) refl;
      results =
          subst (λ l. HaveResult value (answer_calls event value code k₁) l) same divided.results;
    }

-- Where an event is fired, all the calls that wait for it having been created, the function of each subscription is started in their order, by a call that resumes the service of this function at its address and responds to none, the calls that wait for this code, or for none, go to the end of the queue in their order with the value as their result, and all others go on waiting in their order.
pub fire_event-Fired :
    (event value code : ℕ) (behind : List ℕ) (k k' : KernelState)
    → AreCreated k (k.event_at event).waiting_syscalls
    → fire_event event value code behind k ≡ some k'
    → Fired event value code k k'
unfolding fire_event
fire_event-Fired event value code behind k k' created h =
    let subscriptions = (k.event_at event).subscriptions in
    let (k₁, e, h₁) = >>=-eq-some (schedule_all subscriptions 0 (value ∷ behind) k) _ h in
    let (runs, started) = schedule_all-AllStarted subscriptions 0 (value ∷ behind) k k₁ e in
    subst (λ x. Fired event value code k x) (some-injective _ _ h₁)
      (answer_calls-Fired event value code k k₁ created started)
