-- ===== src/Kernel/Calls/Answer.antt =====
-- A call that requests a function of a service is answered when the function returns.
use honey_os.Base.{ℕ, ◌+◌, ◌≡◌, ◌==◌, if◌then◌else◌}
use honey_os.Lists.{list_get}
use honey_os.Kernel.State.{KernelState}
use honey_os.Kernel.Machine.{Machine}

-- The function that a request names, NULL where it names none.
abbrev pub requested : ℕ → KernelState → ℕ
requested call k =
    let provider = list_get k.services (k.syscall_at call).parameter0 in
    if provider == 0
    then 0
    else list_get (k.service_at provider).functions (k.syscall_at call).parameter1

-- The call that a service makes is the newest, and responds to what the one before responded to.
record IsMade (call : ℕ) (k k' : KernelState) : Type 0 where
  next : k'.next_object ≡ k.next_object + 1
  responds : (k'.syscall_at k.next_object).responding_to ≡ call
