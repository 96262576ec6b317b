-- ===== src/Drivers/Pic/Tests.antt =====
-- Lines 1 and 12 are in service.
use honey_os.Base.{◌+◌, ◌≡◌, refl, ◌==◌, if◌then◌else◌, [], ◌∷◌, ◌++◌, map, some, arith}
use mathlib.Core.List.{reverse}
use honey_os.Base.Word.{test_bit}
use honey_os.Drivers.Ports.{read_port, write_port, fired, Device}
use honey_os.Drivers.Pic.{pic1, pic2, irq_master}
use honey_os.Drivers.Pic.Lines.{pending, counting, answers, irq_master-answers}

abbrev two_lines : Device
two_lines trace port = if port == 0x20 then 2 else 16

irq_master-two : irq_master two_lines (λ i. 100 + i) [] ≡ (
  some tt,
  write_port 0xa0 0x20
      ∷ write_port 0x20 0x20
      ∷ fired 112 12
      ∷ fired 101 1
      ∷ read_port 0xa0 16
      ∷ write_port 0xa0 0x0b
      ∷ read_port 0x20 2
      ∷ write_port 0x20 0x0b
      ∷ [],
)
unfolding irq_master test_bit
irq_master-two = refl

irq_master-answers_example : irq_master two_lines (λ i. 100 + i) [] ≡ (
  some tt,
  answers 4098
      ++ (reverse (map (λ line. fired (100 + line) line) (pending 4098 (counting 16 0)))
          ++ read_port pic2 16
            ∷ write_port pic2 0x0b
            ∷ read_port pic1 2
            ∷ write_port pic1 0x0b
            ∷ []),
)
irq_master-answers_example =
    irq_master-answers two_lines (λ i. 100 + i) [] 2 16 4098 refl refl (omega arith) (omega arith)
      refl
