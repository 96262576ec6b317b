-- ===== src/Kernel/Services/Chain.antt =====
-- The chain of the calls that respond to each other, which `handleStackContainsSyscall` follows.
use honey_os.Base.{
  ℕ, zero, suc, ◌<◌, ◌≡◌, ◌≢◌, ◌↔◌, refl, inl, inr, Bool, true, false, some, arith, ◌==◌,
  Bool-cases, ==_iff,
}
use honey_os.Kernel.State.{ServiceFunction, KernelState}
use honey_os.Kernel.Schedule.Queue.{Started}
use honey_os.Kernel.Services.{chain_contains}

-- The number of the service of a call.
abbrev service_id : ℕ → KernelState → ℕ
service_id call k = (k.service_at (k.syscall_at call).service).id

-- Service `id` is the one of `call`, or of a call that it responds to.
pub data OnChain (id : ℕ) (k : KernelState) : ℕ → Type 0 where
  own : (call : ℕ) → call ≢ 0 → service_id call k ≡ id → OnChain id k call
  above : (call : ℕ) → call ≢ 0 → OnChain id k (k.syscall_at call).responding_to → OnChain id k call

-- A call responds to none, or to one that is older.
abbrev pub RespondsToOlder : KernelState → Type 0
RespondsToOlder k = (call : ℕ) → call ≢ 0 → (k.syscall_at call).responding_to < call

OnChain-zero : (id : ℕ) (k : KernelState) (call : ℕ) → OnChain id k call → call ≢ 0
OnChain-zero id k call (own _ h e) = h
OnChain-zero id k call (above _ h c) = h

OnChain-cases :
    (id : ℕ) (k : KernelState) (call : ℕ)
    → OnChain id k call
    → service_id call k ≢ id
    → OnChain id k (k.syscall_at call).responding_to
OnChain-cases id k call (own _ h e) n = ground arith
OnChain-cases id k call (above _ h c) n = c

-- Where each call responds to none or to an older one, the loop ends within one round for each number up to that of its call, and says whether the service is on the chain of the call.
pub chain_contains-OnChain :
    (fuel id call : ℕ) (k : KernelState)
    → RespondsToOlder k
    → call < fuel
    → (found : Bool) × (chain_contains fuel id call k ≡ some found)
      × ((found ≡ true) ↔ OnChain id k call)
unfolding chain_contains
chain_contains-OnChain zero id call k older h = ground arith
chain_contains-OnChain (suc fuel) id call k older h = elim (Bool-cases (call == 0)) [
  | inl e ↦ (
    false,
    rw (chain_contains, e) refl,
    (λ f. ground arith, λ c. ground (arith, OnChain-zero id k call c)),
  )
  | inr e ↦
      let nonzero : call ≢ 0 = ground arith in
      elim (Bool-cases (service_id call k == id)) [
        | inl own_id ↦ (
          true,
          rw (chain_contains, e, own_id) refl,
          (λ f. own call nonzero ((==_iff _ _).0 own_id), λ c. refl),
        )
        | inr other ↦
            let foreign : service_id call k ≢ id = ground arith in
            let next = (k.syscall_at call).responding_to in
            let (found, e', iff) =
              chain_contains-OnChain fuel id next k older (omega (arith, older call nonzero, h)) in
            (
              found,
              rw (chain_contains, e, other) e',
              (λ f. above call nonzero (iff.0 f), λ c. iff.1 (OnChain-cases id k call c foreign)),
            )
      ]
]

-- The start of a function keeps the order, where the call that it responds to exists.
pub Started-RespondsToOlder :
    (provider : ServiceFunction) (responding_to : ℕ) (k k' : KernelState)
    → Started provider responding_to k k'
    → responding_to < k.next_object
    → RespondsToOlder k
    → RespondsToOlder k'
Started-RespondsToOlder provider responding_to k k' started h older call nonzero =
    elim (Bool-cases (call == k.next_object)) [
      | inl e ↦ ground (arith, started.responds)
      | inr n ↦ ground (arith, started.keeps call (ground arith), older call nonzero)
    ]
