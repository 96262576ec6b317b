-- ===== src/Usb/Xhci/Interrupt.antt =====
-- How long xhciInterrupt of src/userland/usb/xhci/controller.c runs.
use mathlib.Core.Option.{some-injective}
use mathlib.Core.Path.{subst}
use honey_os.Base.{
  length, >>=-eq-some, ℕ, zero, suc, ◌+◌, ◌-◌, ◌%◌, ◌^◌, ◌<◌, ◌≤◌, ◌≡◌, refl, Bool, true, false,
  not, some, List, [], ◌∷◌, ◌==◌, if◌then◌else◌, Bool-cases, inl, inr, arith,
}
use honey_os.Usb.Ring.{TrbRing, bool_value, trb_ring_fetch}
use honey_os.Usb.Xhci.{interrupt_loop, xhci_interrupt}

-- Whether the block at an index belongs to the driver, for a cycle bit.
abbrev owned : TrbRing → (index : ℕ) → Bool → Bool
owned ring index cycle = (ring.trbs index).control % 2 == bool_value cycle

-- The loop ends with a result.
abbrev Ends : (fuel : ℕ) → TrbRing → Type 0
Ends fuel ring = (result : List (ℕ × ℕ) × TrbRing) × (interrupt_loop fuel ring ≡ some result)

at : TrbRing → (dequeue : ℕ) → Bool → TrbRing
at ring dequeue cycle = record ring { dequeue = dequeue; cycle = cycle }

module _ (ring : TrbRing) where
  Ends-stop :
      (fuel dequeue : ℕ) (cycle : Bool)
      → owned ring dequeue cycle ≡ false
      → Ends (suc fuel) (at ring dequeue cycle)
  unfolding interrupt_loop trb_ring_fetch at
  Ends-stop fuel dequeue cycle e = (([], at ring dequeue cycle), rw (e, interrupt_loop) refl)

  Ends-step :
      (fuel dequeue : ℕ) (cycle : Bool)
      → dequeue + 1 < 2 ^ 32
      → owned ring dequeue cycle ≡ true
      → ((dequeue + 1 == ring.size - 1) ≡ true → Ends fuel (at ring 0 (not cycle)))
      → ((dequeue + 1 == ring.size - 1) ≡ false → Ends fuel (at ring (dequeue + 1) cycle))
      → Ends (suc fuel) (at ring dequeue cycle)
  unfolding interrupt_loop trb_ring_fetch at
  Ends-step fuel dequeue cycle h e wrapped next =
      let same : (dequeue + 1) % 2 ^ 32 ≡ dequeue + 1 = omega (arith, h) in
      elim (Bool-cases (dequeue + 1 == ring.size - 1)) [
        | inl last ↦
            let (result, r) = wrapped last in
            (
              ((dequeue, (ring.trbs dequeue).data_low) ∷ result.0, result.1),
              rw (e, e, same, last, r, interrupt_loop) refl,
            )
        | inr more ↦
            let (result, r) = next more in
            (
              ((dequeue, (ring.trbs dequeue).data_low) ∷ result.0, result.1),
              rw (e, e, same, more, r, interrupt_loop) refl,
            )
      ]

  module _ (small : ring.size < 2 ^ 32) where
    -- A block in front that is not owned ends the loop.
    Ends-before :
        (distance fuel dequeue : ℕ) (cycle : Bool)
        → dequeue + distance + 1 < ring.size
        → owned ring (dequeue + distance) cycle ≡ false
        → distance < fuel
        → Ends fuel (at ring dequeue cycle)
    Ends-before distance zero dequeue cycle h e f = absurd (omega (arith, f))
    Ends-before zero (suc fuel) dequeue cycle h e f =
        let same : dequeue + 0 ≡ dequeue = omega arith in
        Ends-stop fuel dequeue cycle (rw same at e)
    Ends-before (suc distance) (suc fuel) dequeue cycle h e f =
        elim (Bool-cases (owned ring dequeue cycle)) [
          | inr stop ↦ Ends-stop fuel dequeue cycle stop
          | inl own ↦
              let same : dequeue + suc distance ≡ dequeue + 1 + distance = omega arith in
              Ends-step fuel dequeue cycle (omega (arith, h, small)) own
                (λ last. absurd (ground (arith, h, last)))
                (λ more.
                  Ends-before distance fuel (dequeue + 1) cycle (omega (arith, h)) (rw same at e)
                    (omega (arith, f)))
        ]

    Ends-wrapped :
        (fuel first : ℕ) (cycle : Bool)
        → first + 1 < ring.size
        → owned ring first (not cycle) ≡ false
        → first < fuel
        → Ends fuel (at ring 0 (not cycle))
    Ends-wrapped fuel first cycle h e f =
        let same : 0 + first ≡ first = omega arith in
        Ends-before first fuel 0 (not cycle) (omega (arith, h)) (rw same e) f

    -- Up to the end of the ring, where the cycle bit changes; `first` is not owned then.
    Ends-lap :
        (left fuel first dequeue : ℕ) (cycle : Bool)
        → dequeue + left + 2 ≡ ring.size
        → first + 1 < ring.size
        → owned ring first (not cycle) ≡ false
        → left + first + 1 < fuel
        → Ends fuel (at ring dequeue cycle)
    Ends-lap left zero first dequeue cycle s h e f = absurd (omega (arith, f))
    Ends-lap zero (suc fuel) first dequeue cycle s h e f =
        elim (Bool-cases (owned ring dequeue cycle)) [
          | inr stop ↦ Ends-stop fuel dequeue cycle stop
          | inl own ↦
              Ends-step fuel dequeue cycle (omega (arith, s, small)) own
                (λ last. Ends-wrapped fuel first cycle h e (omega (arith, f)))
                (λ more. absurd (ground (arith, s, more)))
        ]
    Ends-lap (suc left) (suc fuel) first dequeue cycle s h e f =
        elim (Bool-cases (owned ring dequeue cycle)) [
          | inr stop ↦ Ends-stop fuel dequeue cycle stop
          | inl own ↦
              Ends-step fuel dequeue cycle (omega (arith, s, small)) own
                (λ last. Ends-wrapped fuel first cycle h e (omega (arith, f)))
                (λ more.
                  Ends-lap left fuel first (dequeue + 1) cycle (omega (arith, s)) h e
                    (omega (arith, f)))
        ]

owned-not :
    (ring : TrbRing) (index : ℕ) (cycle : Bool)
    → owned ring index cycle ≡ true
    → owned ring index (not cycle) ≡ false
owned-not ring index true e = ground (arith, e)
owned-not ring index false e = ground (arith, e)

interrupt_loop-Ends :
    (ring : TrbRing) → ring.size < 2 ^ 32 → ring.dequeue + 1 < ring.size → Ends (ring.size + 1) ring
unfolding at
interrupt_loop-Ends ring small h = elim (Bool-cases (owned ring ring.dequeue ring.cycle)) [
  | inr stop ↦
      let fuel : ring.size + 1 ≡ suc ring.size = omega arith in
      rw fuel (Ends-stop ring ring.size ring.dequeue ring.cycle stop)
  | inl own ↦
      Ends-lap ring small (ring.size - ring.dequeue - 2) (ring.size + 1) ring.dequeue ring.dequeue
        ring.cycle (omega (arith, h)) h (owned-not ring ring.dequeue ring.cycle own)
        (omega (arith, h))
]

-- Behind the loop the next block is not one of the driver's.
IsDrained : (fuel : ℕ) → List (ℕ × ℕ) × TrbRing → Type 0
IsDrained fuel result =
    (length result.0 < fuel) × (owned result.1 result.1.dequeue result.1.cycle ≡ false)

-- The ring behind a block that was fetched.
abbrev behind_block : TrbRing → TrbRing
behind_block ring =
    if (ring.dequeue + 1) % 2 ^ 32 == ring.size - 1
    then record ring { dequeue = 0; cycle = not ring.cycle }
    else record ring { dequeue = (ring.dequeue + 1) % 2 ^ 32 }

interrupt_loop-IsDrained :
    (fuel : ℕ) (ring : TrbRing) (result : List (ℕ × ℕ) × TrbRing)
    → interrupt_loop fuel ring ≡ some result
    → IsDrained fuel result
unfolding interrupt_loop trb_ring_fetch IsDrained
interrupt_loop-IsDrained zero ring result e = cc
interrupt_loop-IsDrained (suc fuel) ring result e =
    elim (Bool-cases (owned ring ring.dequeue ring.cycle)) [
      | inr stop ↦
          subst (λ r. IsDrained (suc fuel) r) (some-injective _ _ (rw (stop, interrupt_loop) at e))
            (omega arith, stop)
      | inl own ↦
          let (later, l, e₁) =
            >>=-eq-some (interrupt_loop fuel (behind_block ring)) _
              (rw (own, own, interrupt_loop) at e) in
          let drained = interrupt_loop-IsDrained fuel (behind_block ring) later l in
          subst (λ r. IsDrained (suc fuel) r) (some-injective _ _ e₁)
            (omega (arith, drained.0), drained.1)
    ]

-- Where the blocks of the event ring stay as they are, the handler of an interrupt that is pending ends: its loop takes one round more than the ring has blocks at most, and it stops at a block that the controller has not handed over.
pub xhci_interrupt-Ends :
    (management : ℕ) (ring : TrbRing)
    → management % 2 ≡ 1
    → ring.size < 2 ^ 32
    → ring.dequeue + 1 < ring.size
    → (result : List (ℕ × ℕ) × TrbRing) × (xhci_interrupt (ring.size + 1) management ring
        ≡ some result)
      × (length result.0 ≤ ring.size)
      × (((result.1.trbs result.1.dequeue).control % 2 == bool_value result.1.cycle) ≡ false)
unfolding xhci_interrupt IsDrained
xhci_interrupt-Ends management ring pending small h =
    let (result, e) = interrupt_loop-Ends ring small h in
    let test : (management % 2 == 1) ≡ true = ground (arith, pending) in
    let drained = interrupt_loop-IsDrained (ring.size + 1) ring result e in
    (result, rw test e, omega (arith, drained.0), drained.1)
