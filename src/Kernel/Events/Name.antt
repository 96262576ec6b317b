-- ===== src/Kernel/Events/Name.antt =====
-- Events by their names: src/kernel/service/eventSyscalls.c.
use honey_os.Base.{
  ℕ, ◌+◌, ◌%◌, ◌^◌, ◌≡◌, ◌≢◌, refl, sym, ap, ◌∙◌, true, false, Option, none, some, List, [], ◌∷◌,
  ◌==◌, update, arith,
}
use honey_os.Lists.{list_add, list_count, list_count_from, list_get}
use honey_os.Kernel.State.{Event, KernelState, return_to, with_service, with_syscall, new_event}
use honey_os.Kernel.Events.{
  event_list, find_event, handle_create_event_syscall, handle_get_event_syscall,
}
use honey_os.Kernel.Events.Fire.{AreCreated}

-- No event of the list has the name.
abbrev pub Unnamed : (name : ℕ) → List ℕ → KernelState → Type 0
Unnamed name [] k = Unit
Unnamed name (event ∷ events) k = ((k.event_at event).name ≢ name) × Unnamed name events k

not_equal : (a b : ℕ) → a ≢ b → (a == b) ≡ false
not_equal a b h = ground arith

equal : (a b : ℕ) → a ≡ b → (a == b) ≡ true
equal a b h = ground arith

find_event-list_add :
    (name i event : ℕ) (events : List ℕ) (k : KernelState)
    → Unnamed name events k
    → (k.event_at event).name ≡ name
    → find_event name i (list_add events event) k ≡ some (list_count_from i events)
unfolding find_event list_add list_count_from
find_event-list_add name i event [] k u e = rw (equal (k.event_at event).name name e) refl
find_event-list_add name i event (x ∷ events) k u e =
    rw (not_equal (k.event_at x).name name u.0)
      (find_event-list_add name ((i + 1) % 2 ^ 32) event events k u.1 e)

-- The name of a new event does not change those of the others.
Unnamed-update :
    (name : ℕ) (events : List ℕ) (value : Event) (k k' : KernelState)
    → k'.event_at ≡ update k.event_at k.next_object value
    → AreCreated k events
    → Unnamed name events k
    → Unnamed name events k'
unfolding update
Unnamed-update name [] value k k' e created u = tt
Unnamed-update name (x ∷ events) value k k' e created u =
    let same : update k.event_at k.next_object value x ≡ k.event_at x =
      rw (not_equal k.next_object x (λ h. omega (arith, h, created.0))) refl in
    (
      (λ n. u.0 (ap (λ v. v.name) (sym same) ∙ ap (λ f. (f x).name) (sym e) ∙ n)),
      Unnamed-update name events value k k' e created.1 u.1,
    )

handle_get_event_syscall-finds :
    (call i : ℕ) (events : List ℕ) (k : KernelState)
    → (k.syscall_at call).parameter1 ≢ 0
    → event_list (k.syscall_at call).parameter0 k ≡ some events
    → find_event (k.syscall_at call).parameter1 0 events k ≡ some i
    → handle_get_event_syscall call k ≡ some (return_to call i k)
unfolding handle_get_event_syscall
handle_get_event_syscall-finds call i events k n l f =
    rw (not_equal (k.syscall_at call).parameter1 0 n, l)
      (ap
        (λ found. elim found as (λ _. Option KernelState) [
          | none ↦ some k
          | some number ↦ some (return_to call number k)
        ])
        f)

-- The list of the events of a service that has a number.
event_list-service :
    (target service : ℕ) (k : KernelState)
    → target ≢ 0
    → list_get k.services target ≡ service
    → service ≢ 0
    → event_list target k ≡ some (k.service_at service).events
unfolding event_list
event_list-service target service k t s n = rw (not_equal target 0 t, s, not_equal service 0 n) refl

module _ (creating : ℕ) (k : KernelState) where
  abbrev service : ℕ
  service = (k.syscall_at creating).service

  abbrev name : ℕ
  name = (k.syscall_at creating).parameter0

  abbrev events : List ℕ
  events = (k.service_at service).events

  abbrev event : Event
  event = record { name = name; subscriptions = []; waiting_syscalls = [] }

  -- The state behind the creation of an event.
  created : KernelState
  unfolding new_event with_service return_to with_syscall
  created =
      let k₁ = return_to creating (list_count events) (new_event event k) in
      with_service service
        (record (k₁.service_at service) { events = list_add events k.next_object }) k₁

  handle_create_event_syscall-created : name ≢ 0 → handle_create_event_syscall creating k ≡ created
  unfolding handle_create_event_syscall created
  handle_create_event_syscall-created n = rw (not_equal name 0 n) refl

  created-named : (created.event_at k.next_object).name ≡ name
  unfolding created update
  created-named = rw (equal k.next_object k.next_object refl) refl

  created-Unnamed : AreCreated k events → Unnamed name events k → Unnamed name events created
  unfolding created
  created-Unnamed = Unnamed-update name events event k created refl

  created-events : (created.service_at service).events ≡ list_add events k.next_object
  unfolding created update
  created-events = rw (equal service service refl) refl

  created-number : (created.syscall_at creating).return_value ≡ list_count events
  unfolding created update
  created-number = rw (equal creating creating refl) refl

  created-services : created.services ≡ k.services
  unfolding created
  created-services = refl

  created-others : (call : ℕ) → call ≢ creating → created.syscall_at call ≡ k.syscall_at call
  unfolding created update
  created-others call h = rw (not_equal creating call (λ e. h (sym e))) refl

-- The number that the creation of an event returns is found by its name: where a service has no event with the name yet and creates one, a later call that asks for the event by the number of the service and the name gets the number that the creation returned.
pub get_event-create_event :
    (creating getting : ℕ) (k : KernelState)
    → getting ≢ creating
    → name creating k ≢ 0
    → (k.syscall_at getting).parameter0 ≢ 0
    → (k.syscall_at getting).parameter1 ≡ name creating k
    → list_get k.services (k.syscall_at getting).parameter0 ≡ service creating k
    → service creating k ≢ 0
    → AreCreated k (events creating k)
    → Unnamed (name creating k) (events creating k) k
    → handle_get_event_syscall getting (handle_create_event_syscall creating k)
      ≡ some (
          return_to getting
            ((handle_create_event_syscall creating k).syscall_at creating).return_value
            (handle_create_event_syscall creating k))
unfolding list_count
get_event-create_event creating getting k other n t g l z made u =
    let after = created creating k in
    let same = created-others creating k getting other in
    let target : (after.syscall_at getting).parameter0 ≡ (k.syscall_at getting).parameter0 =
      ap (λ c. c.parameter0) same in
    let wanted : (after.syscall_at getting).parameter1 ≡ name creating k =
      ap (λ c. c.parameter1) same ∙ g in
    let place : list_get after.services (k.syscall_at getting).parameter0 ≡ service creating k =
      ap (λ s. list_get s (k.syscall_at getting).parameter0) (created-services creating k) ∙ l in
    let listed =
      event_list-service (k.syscall_at getting).parameter0 (service creating k) after t place z
      ∙ ap (λ e. some e) (created-events creating k) in
    let found =
      find_event-list_add (name creating k) 0 k.next_object (events creating k) after
        (created-Unnamed creating k made u) (created-named creating k) in
    rw (handle_create_event_syscall-created creating k n, created-number creating k)
      (handle_get_event_syscall-finds getting (list_count (events creating k))
        (list_add (events creating k) k.next_object) after (λ h. n (sym wanted ∙ h))
        (ap (λ t. event_list t after) target ∙ listed)
        (ap (λ w. find_event w 0 (list_add (events creating k) k.next_object) after) wanted
          ∙ found))
