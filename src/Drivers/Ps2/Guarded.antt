-- ===== src/Drivers/Ps2/Guarded.antt =====
-- How src/userland/ps2/main.c waits for the controller before it uses its ports.
use mathlib.Core.Path.{subst}
use honey_os.Base.{
  ℕ, zero, suc, ◌+◌, ◌≡◌, ◌⊎◌, inl, inr, refl, Bool, true, false, ◌==◌, if◌then◌else◌, [], ◌∷◌,
  Option, none, some, Bool-cases, arith,
}
use honey_os.Drivers.Ports.{
  Action, read_port, write_port, Trace, Device, ◌>>◌, pure, continue, io_in, io_out, Keeps,
  Keeps-pure, Keeps-out_of_fuel, Keeps-if, Keeps-bind, Keeps-then,
}
use honey_os.Drivers.Ps2.{
  command, data_port, output_buffer_status, input_buffer_status, wait_for_read, wait_for_write,
  read, write_controller, write_device, flush_output_buffer, wait_for_ack, timeout,
}

-- The last action was to read a status that shows a byte for the driver.
abbrev pub HasByte : Trace → Type 0
HasByte (read_port port value ∷ trace) = (port ≡ command) × (output_buffer_status value ≡ true)
HasByte _ = ⊥

-- The last action was to read a status that shows room for a byte of the driver.
abbrev pub HasRoom : Trace → Type 0
HasRoom (read_port port value ∷ trace) = (port ≡ command) × (input_buffer_status value ≡ false)
HasRoom _ = ⊥

-- The last `n` actions were to read a status that shows no room.
pub Busy : ℕ → Trace → Type 0
Busy zero trace = Unit
Busy (suc n) (read_port port value ∷ trace) =
    (port ≡ command) × (input_buffer_status value ≡ true) × Busy n trace
Busy (suc n) _ = ⊥

abbrev pub MayWrite : Trace → Type 0
MayWrite trace = HasRoom trace ⊎ Busy timeout trace

-- Whether an action may follow a trace: a byte is read only where the controller has one, and written
-- only where it has room, or had none for the whole time of the wait.
abbrev pub Allowed : Action → Trace → Type 0
Allowed (read_port port value) trace = (port ≡ data_port → HasByte trace)
Allowed (write_port port value) trace = MayWrite trace
Allowed _ trace = Unit

pub data IsGuarded : Trace → Type 0 where
  empty : IsGuarded []
  next :
      {action : Action} {trace : Trace}
      → Allowed action trace
      → IsGuarded trace
      → IsGuarded (action ∷ trace)

module _ (device : Device) where
  status-IsGuarded :
      (trace : Trace) (value : ℕ) → IsGuarded trace → IsGuarded (read_port command value ∷ trace)
  status-IsGuarded trace value g = next (λ e. absurd (omega (arith, e))) g

  -- Behind `waitForRead` there is a byte, where the time is not over.
  WaitedForRead : Option Bool × Trace → Type 0
  WaitedForRead (none, trace) = IsGuarded trace
  WaitedForRead (some late, trace) = IsGuarded trace × (late ≡ false → HasByte trace)

  wait_for_read-Waited :
      (n : ℕ) (trace : Trace) → IsGuarded trace → WaitedForRead (wait_for_read device n trace)
  unfolding wait_for_read io_in WaitedForRead
  wait_for_read-Waited zero trace g = (g, λ e. cc)
  wait_for_read-Waited (suc n) trace g =
      let value = device trace command in
      let g' = status-IsGuarded trace value g in
      elim (Bool-cases (output_buffer_status value)) [
        | inl e ↦ rw e (g', λ h. (refl, e))
        | inr e ↦ rw e (wait_for_read-Waited n (read_port command value ∷ trace) g')
      ]

  WaitedForWrite : ℕ → Option (Unit {0}) × Trace → Type 0
  WaitedForWrite n (none, trace) = IsGuarded trace
  WaitedForWrite n (some done, trace) = IsGuarded trace × (HasRoom trace ⊎ Busy n trace)

  -- The rounds of `waitForWrite` add to those that were busy before.
  wait_for_write-Waited :
      (n k : ℕ) (trace : Trace)
      → IsGuarded trace
      → Busy k trace
      → WaitedForWrite (n + k) (wait_for_write device n trace)
  unfolding wait_for_write io_in WaitedForWrite Busy
  wait_for_write-Waited zero k trace g busy =
      (g, inr (subst (λ m. Busy m trace) (let e : k ≡ 0 + k = omega arith in e) busy))
  wait_for_write-Waited (suc n) k trace g busy =
      let value = device trace command in
      let g' = status-IsGuarded trace value g in
      elim (Bool-cases (input_buffer_status value)) [
        | inl e ↦
            let later =
              wait_for_write-Waited n (suc k) (read_port command value ∷ trace) g'
                (refl, e, busy) in
            let sum : n + suc k ≡ suc n + k = omega arith in
            rw e (
              subst
                (λ m. WaitedForWrite m (wait_for_write device n (read_port command value ∷ trace)))
                sum later)
        | inr e ↦ rw e (g', inl (refl, e))
      ]

  read_data-IsGuarded :
      (late : Bool) (trace : Trace)
      → IsGuarded trace
      → (late ≡ false → HasByte trace)
      → IsGuarded ((if late then pure 0xff else io_in device data_port) trace).1
  unfolding io_in
  read_data-IsGuarded true trace g h = g
  read_data-IsGuarded false trace g h = next (λ e. h refl) g

  pub read-Keeps : Keeps IsGuarded (read device)
  unfolding read WaitedForRead
  read-Keeps = record {
    kept = λ trace g.
        read_behind (wait_for_read device timeout trace) (wait_for_read-Waited timeout trace g);
  }
    where
      read_behind :
          (r : Option Bool × Trace)
          → WaitedForRead r
          → IsGuarded (continue r λ late. if late then pure 0xff else io_in device data_port).1
      read_behind (none, trace) g = g
      read_behind (some late, trace) g = read_data-IsGuarded late trace g.0 g.1

  write_behind :
      (port value : ℕ) (r : Option (Unit {0}) × Trace)
      → WaitedForWrite timeout r
      → IsGuarded (continue r λ _. io_out port value).1
  unfolding WaitedForWrite io_out
  write_behind port value (none, trace) g = g
  write_behind port value (some done, trace) g = next g.1 g.0

  -- Each write waits.
  waited_write-Keeps :
      (port value : ℕ) → Keeps IsGuarded (wait_for_write device timeout >> io_out port value)
  unfolding Busy
  waited_write-Keeps port value = record {
    kept = λ trace g.
        write_behind port value (wait_for_write device timeout trace)
          (wait_for_write-Waited timeout 0 trace g tt);
  }

  pub write_controller-Keeps : (value : ℕ) → Keeps IsGuarded (write_controller device value)
  unfolding write_controller
  write_controller-Keeps value = waited_write-Keeps command value

  pub write_device-Keeps : (index value : ℕ) → Keeps IsGuarded (write_device device index value)
  unfolding write_device
  write_device-Keeps index value =
      Keeps-then (Keeps-if (index == 1) (write_controller-Keeps 0xd4) (Keeps-pure tt))
        (waited_write-Keeps data_port value)

  pub flush_output_buffer-IsGuarded :
      (fuel : ℕ) (trace : Trace)
      → IsGuarded trace
      → IsGuarded (flush_output_buffer device fuel trace).1
  unfolding flush_output_buffer io_in
  flush_output_buffer-IsGuarded zero trace g = g
  flush_output_buffer-IsGuarded (suc fuel) trace g =
      let value = device trace command in
      let g' = status-IsGuarded trace value g in
      elim (Bool-cases (output_buffer_status value)) [
        | inl e ↦ rw e (flush_output_buffer-IsGuarded fuel _ (next (λ h. (refl, e)) g'))
        | inr e ↦ rw e g'
      ]

  pub wait_for_ack-Keeps : (fuel : ℕ) → Keeps IsGuarded (wait_for_ack device fuel)
  unfolding wait_for_ack
  wait_for_ack-Keeps zero = Keeps-out_of_fuel
  wait_for_ack-Keeps (suc fuel) =
      Keeps-bind read-Keeps
        λ value. Keeps-if (value == 0xfa) (Keeps-pure tt) (wait_for_ack-Keeps fuel)
