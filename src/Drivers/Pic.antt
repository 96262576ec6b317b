-- ===== src/Drivers/Pic.antt =====
-- The two interrupt controllers: src/userland/pic/main.c, and setupPic of
-- src/kernel/interrupts/interrupts.c.
pub mod Lines
mod Tests
use honey_os.Base.{
  ℕ, zero, suc, ◌+◌, ◌*◌, ◌/◌, ◌%◌, ◌<◌, ◌≡◌, refl, Bool, true, false, not, ◌||◌, ◌&&◌, leb, ltb,
  ◌==◌, if◌then◌else◌, List, [], ◌∷◌, ◌++◌, map, Option, none, some, bit_or, arith,
}
use honey_os.Base.Word.{test_bit}
use honey_os.Drivers.Ports.{
  Action, read_port, write_port, fired, Trace, Device, Driver, ◌>>=◌, ◌>>◌, pure, act, io_in,
  io_out,
}

abbrev pub pic1 : ℕ
pic1 = 0x20

abbrev pub pic2 : ℕ
pic2 = 0xa0

module _ (device : Device) where
  -- `getISR`
  unfoldable pub get_isr : Driver ℕ
  unfolding io_in io_out
  get_isr = do
    io_out pic1 0x0b
    first ← io_in device pic1
    io_out pic2 0x0b
    second ← io_in device pic2
    pure (bit_or first (second * 256))

  -- `getIRR`
  unfoldable pub get_irr : Driver ℕ
  unfolding io_in io_out
  get_irr = do
    io_out pic1 0x0a
    io_out pic2 0x0a
    second ← io_in device pic2
    first ← io_in device pic1
    pure (bit_or (second * 256) first)

-- The loop of `irqMaster`, its last `n` rounds from `i` on; it returns `sendPic2EOI`.
unfoldable pub fire_lines : (event_ids : ℕ → ℕ) (isr n i : ℕ) (send_pic2_eoi : Bool) → Driver Bool
fire_lines event_ids isr zero i send_pic2_eoi = pure send_pic2_eoi
fire_lines event_ids isr (suc n) i send_pic2_eoi = do
  if test_bit isr i then act (fired (event_ids i) i) else pure tt
  fire_lines event_ids isr n (i + 1) (send_pic2_eoi || (leb 8 i && test_bit isr i))

-- The end of `irqMaster`
unfoldable pub end_interrupts : (isr : ℕ) (send_pic2_eoi : Bool) → Driver (Unit {0})
unfolding io_out
end_interrupts isr send_pic2_eoi =
    if isr == 0
    then pure tt
    else (do io_out pic1 0x20; if send_pic2_eoi then io_out pic2 0x20 else pure tt)

-- `irqMaster`
unfoldable pub irq_master : Device → (event_ids : ℕ → ℕ) → Driver (Unit {0})
unfolding get_isr fire_lines end_interrupts
irq_master device event_ids = do
  isr ← get_isr device
  send_pic2_eoi ← fire_lines event_ids isr 16 0 false
  end_interrupts isr send_pic2_eoi

-- The ports that `main` sets up in front of the events.
unfoldable pub set_up_pic : Device → Driver (Unit {0})
unfolding io_in io_out
set_up_pic device = do
  io_out 0x21 0
  io_out 0xa1 0
  old ← io_in device 0x70
  io_out 0x70 (bit_or old 0x80)
  ignored ← io_in device 0x71
  pure tt

-- `setupPic` of the kernel
unfoldable pub setup_pic : Driver (Unit {0})
unfolding io_out
setup_pic = do
  io_out 0x20 0x11
  io_out 0xa0 0x11
  io_out 0xa1 32
  io_out 0x21 40
  io_out 0xa1 0x02
  io_out 0x21 0x04
  io_out 0x21 0x1
  io_out 0xa1 0x1
  io_out 0x21 0xff
  io_out 0xa1 0xff
