-- ===== src/Drivers/Pic/Lines.antt =====
-- Which events irqMaster of src/userland/pic/main.c fires, and which controllers it answers.
use mathlib.Core.Path.{subst}
use mathlib.Core.List.{reverse, append_assoc, reverse-append}
use honey_os.Base.{
  ℕ, zero, suc, ◌+◌, ◌*◌, ◌^◌, ◌<◌, ◌≡◌, ◌∙◌, ap, sym, refl, Bool, true, false, ◌||◌, ◌&&◌, leb,
  ◌==◌, if◌then◌else◌, List, [], ◌∷◌, ◌++◌, map, some, bit_or, inl, inr, Bool-cases, arith,
}
use honey_os.Base.Bits.{bit, bit_or-lt}
use honey_os.Base.Word.{test_bit, test_bit-bit}
use honey_os.Drivers.Ports.{read_port, write_port, fired, Trace, Device, continue, io_in, io_out}
use honey_os.Drivers.Pic.{pic1, pic2, get_isr, fire_lines, end_interrupts, irq_master}

-- `n` numbers from `i` on.
abbrev pub counting : ℕ → ℕ → List ℕ
counting zero i = []
counting (suc n) i = i ∷ counting n (i + 1)

-- The lines whose bit is set.
abbrev pub pending : (isr : ℕ) → List ℕ → List ℕ
pending isr [] = []
pending isr (i ∷ lines) = if test_bit isr i then i ∷ pending isr lines else pending isr lines

-- The second controller is answered where it has a line, the first one in any case.
abbrev pub answers : (isr : ℕ) → Trace
answers isr =
    if isr == 0
    then []
    else if leb 256 isr
    then write_port pic2 0x20 ∷ write_port pic1 0x20 ∷ []
    else write_port pic1 0x20 ∷ []

-- The flag that the loop returns.
abbrev flag : (isr n i : ℕ) → Bool → Bool
flag isr zero i send = send
flag isr (suc n) i send = flag isr n (i + 1) (send || (leb 8 i && test_bit isr i))

reverse-cons-append {ℓ} :
    {A : Type ℓ} (x : A) (xs ys : List A) → reverse xs ++ x ∷ ys ≡ reverse (x ∷ xs) ++ ys
reverse-cons-append x xs ys =
    sym (ap (λ l. l ++ ys) (reverse-append (x ∷ []) xs) ∙ append_assoc (reverse xs) (x ∷ []) ys)

fire_lines-pending :
    (event_ids : ℕ → ℕ) (isr n i : ℕ) (send : Bool) (trace : Trace)
    → fire_lines event_ids isr n i send trace ≡ (
      some (flag isr n i send),
      reverse (map (λ line. fired (event_ids line) line) (pending isr (counting n i))) ++ trace,
    )
unfolding fire_lines
fire_lines-pending event_ids isr zero i send trace = refl
fire_lines-pending event_ids isr (suc n) i send trace = elim (Bool-cases (test_bit isr i)) [
  | inl e ↦
      let later =
        fire_lines-pending event_ids isr n (i + 1) (send || (leb 8 i && true))
          (fired (event_ids i) i ∷ trace) in
      let f = λ (line : ℕ). fired (event_ids line) line in
      rw e (
        later
        ∙ ap (λ t. (some (flag isr n (i + 1) (send || (leb 8 i && true))), t))
            (reverse-cons-append (fired (event_ids i) i) (map f (pending isr (counting n (i + 1))))
              trace))
  | inr e ↦ rw e (fire_lines-pending event_ids isr n (i + 1) (send || (leb 8 i && false)) trace)
]

flag-pic2 : (isr : ℕ) → isr < 2 ^ 16 → flag isr 16 0 false ≡ leb 256 isr
unfolding bit
flag-pic2 isr h = ground (
  arith,
  test_bit-bit isr 8,
  test_bit-bit isr 9,
  test_bit-bit isr 10,
  test_bit-bit isr 11,
  test_bit-bit isr 12,
  test_bit-bit isr 13,
  test_bit-bit isr 14,
  test_bit-bit isr 15,
)

end_interrupts-answers :
    (isr : ℕ) (trace : Trace)
    → isr < 2 ^ 16
    → end_interrupts isr (leb 256 isr) trace ≡ (some tt, answers isr ++ trace)
unfolding end_interrupts io_out
end_interrupts-answers isr trace h = ground arith

served :
    (event_ids : ℕ → ℕ) (isr : ℕ) (trace : Trace)
    → isr < 2 ^ 16
    → continue (fire_lines event_ids isr 16 0 false trace) (end_interrupts isr) ≡ (
      some tt,
      answers isr
          ++ (reverse (map (λ line. fired (event_ids line) line) (pending isr (counting 16 0)))
              ++ trace),
    )
served event_ids isr trace small =
    rw (fire_lines-pending event_ids isr 16 0 false trace, flag-pic2 isr small)
      (end_interrupts-answers isr _ small)

-- Where both controllers show bytes, `irqMaster` fires the events of the lines in service in the order of their numbers, each once and no other, and then answers the first controller where there was a line, and the second one where it had one.
pub irq_master-answers :
    (device : Device) (event_ids : ℕ → ℕ) (trace : Trace) (first second isr : ℕ)
    → device (write_port pic1 0x0b ∷ trace) pic1 ≡ first
    → device (write_port pic2 0x0b ∷ read_port pic1 first ∷ write_port pic1 0x0b ∷ trace) pic2
      ≡ second
    → first < 256
    → second < 256
    → bit_or first (second * 256) ≡ isr
    → irq_master device event_ids trace ≡ (
      some tt,
      answers isr
          ++ (reverse (map (λ line. fired (event_ids line) line) (pending isr (counting 16 0)))
              ++ read_port pic2 second
                ∷ write_port pic2 0x0b
                ∷ read_port pic1 first
                ∷ write_port pic1 0x0b
                ∷ trace),
    )
unfolding irq_master get_isr io_in io_out
irq_master-answers device event_ids trace first second isr e f h k g =
    let small : isr < 2 ^ 16 =
      subst (λ (x : ℕ). x < 2 ^ 16) g
        (bit_or-lt 16 first (second * 256) (omega (arith, h)) (omega (arith, k))) in
    rw (e, f, g) (served event_ids isr _ small)
