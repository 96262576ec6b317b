-- ===== src/Drivers/Ps2/Startup.antt =====
-- The whole driver of src/userland/ps2/main.c, from what its single accesses wait for.
use honey_os.Base.{ℕ, [], Option, none, some}
use honey_os.Drivers.Ports.{
  loaded, registered, Device, Driver, ◌>>◌, act, Keeps, Keeps-pure, Keeps-if, Keeps-bind,
  Keeps-then,
}
use honey_os.Drivers.Ps2.{
  write_device, flush_output_buffer, wait_for_ack, read_configuration, write_configuration,
  rest_of_type, DeviceType, get_device_type, init_mouse, init_keyboard, reset_device, init_device,
  start_second, start_devices, start, second_type,
}
use honey_os.Drivers.Ps2.Guarded.{
  IsGuarded, next, empty, read-Keeps, write_controller-Keeps, write_device-Keeps,
  wait_for_ack-Keeps, flush_output_buffer-IsGuarded,
}

module _ (device : Device) where
  -- What the driver tells other programs needs no wait.
  loaded-Keeps : (service : ℕ) → Keeps IsGuarded (act (loaded service))
  loaded-Keeps service = record { kept = λ trace g. next tt g }

  registered-Keeps :
      (service kind event : ℕ) → Keeps IsGuarded (act (registered service kind event))
  registered-Keeps service kind event = record { kept = λ trace g. next tt g }

  module _ (fuel : ℕ) where
    flush-Keeps : Keeps IsGuarded (flush_output_buffer device fuel)
    flush-Keeps = record { kept = flush_output_buffer-IsGuarded device fuel }

    read_configuration-Keeps : Keeps IsGuarded (read_configuration device fuel)
    unfolding read_configuration
    read_configuration-Keeps =
        Keeps-then flush-Keeps (Keeps-then (write_controller-Keeps device 0x20) (read-Keeps device))

    write_configuration-Keeps :
        (value : ℕ) → Keeps IsGuarded (write_configuration device fuel value)
    unfolding write_configuration
    write_configuration-Keeps value =
        Keeps-then (write_controller-Keeps device 0x60)
          (Keeps-then (write_device-Keeps device 0 value) flush-Keeps)

    rest_of_type-Keeps : (kind : Option DeviceType) → Keeps IsGuarded (rest_of_type device kind)
    unfolding rest_of_type
    rest_of_type-Keeps (some kind) = Keeps-pure kind
    rest_of_type-Keeps none =
        Keeps-bind (read-Keeps device) λ result2. Keeps-pure (second_type result2)

    -- A command that the device acknowledges.
    acknowledged-Keeps :
        {A : Type 0} (index value : ℕ) {m : Driver A}
        → Keeps IsGuarded m
        → Keeps IsGuarded (write_device device index value >> (wait_for_ack device fuel >> m))
    acknowledged-Keeps index value m =
        Keeps-then (write_device-Keeps device index value)
          (Keeps-then (wait_for_ack-Keeps device fuel) m)

    get_device_type-Keeps : (index : ℕ) → Keeps IsGuarded (get_device_type device fuel index)
    unfolding get_device_type
    get_device_type-Keeps index = acknowledged-Keeps index 0xf5 (
        acknowledged-Keeps index 0xf2
          (Keeps-bind (read-Keeps device) λ result1. rest_of_type-Keeps _))

    init_mouse-Keeps :
        (index : ℕ) (kind : DeviceType) (event : ℕ)
        → Keeps IsGuarded (init_mouse device fuel index kind event)
    unfolding init_mouse
    init_mouse-Keeps index kind event = Keeps-then (loaded-Keeps _) (
        acknowledged-Keeps index 0xf6 (
          Keeps-then flush-Keeps (
            acknowledged-Keeps index 0xf3 (
              Keeps-then flush-Keeps
                (acknowledged-Keeps index 10 (Keeps-then flush-Keeps (registered-Keeps _ _ _)))))))

    init_keyboard-Keeps :
        (index : ℕ) (kind : DeviceType) (event : ℕ)
        → Keeps IsGuarded (init_keyboard device fuel index kind event)
    unfolding init_keyboard
    init_keyboard-Keeps index kind event = Keeps-then (loaded-Keeps _) (
        Keeps-then flush-Keeps (
          Keeps-then (write_device-Keeps device index 0xf0) (
            acknowledged-Keeps index 0x00 (
              Keeps-then (read-Keeps device) (
                Keeps-then flush-Keeps (
                  Keeps-then (write_device-Keeps device index 0xf0)
                    (acknowledged-Keeps index 1 (registered-Keeps _ _ _))))))))

    reset_device-Keeps :
        (event : ℕ → ℕ) (index : ℕ) → Keeps IsGuarded (reset_device device fuel event index)
    unfolding reset_device
    reset_device-Keeps event index = Keeps-then (write_device-Keeps device index 0xff) (
        Keeps-bind (read-Keeps device) λ ack. Keeps-bind (read-Keeps device) λ health.
          Keeps-if _ (Keeps-pure tt) (
            Keeps-bind (get_device_type-Keeps index) λ kind.
              Keeps-if _ (Keeps-pure tt)
                (Keeps-if _ (init_mouse-Keeps index kind _) (init_keyboard-Keeps index kind _))))

    init_device-Keeps :
        (event : ℕ → ℕ) (index : ℕ) → Keeps IsGuarded (init_device device fuel event index)
    unfolding init_device
    init_device-Keeps event index = Keeps-then flush-Keeps (
        Keeps-then (write_controller-Keeps device _) (
          Keeps-bind (read-Keeps device) λ health. Keeps-if _ (Keeps-pure tt) (
            Keeps-then (write_controller-Keeps device _)
              (Keeps-then flush-Keeps (reset_device-Keeps event index)))))

    start_second-Keeps : (event : ℕ → ℕ) → Keeps IsGuarded (start_second device fuel event)
    unfolding start_second
    start_second-Keeps event = Keeps-then (write_controller-Keeps device 0xa8) (
        Keeps-bind read_configuration-Keeps λ config. Keeps-if _ (Keeps-pure tt) (
          Keeps-then (write_controller-Keeps device 0xa7)
            (Keeps-then (init_device-Keeps event 1) (write_device-Keeps device 1 0xf4))))

    start_devices-Keeps :
        (event : ℕ → ℕ) (config : ℕ) → Keeps IsGuarded (start_devices device fuel event config)
    unfolding start_devices
    start_devices-Keeps event config = Keeps-then (init_device-Keeps event 0) (
        Keeps-then (Keeps-if _ (start_second-Keeps event) (Keeps-pure tt)) (
          Keeps-then (write_device-Keeps device 0 0xf4)
            (Keeps-bind read_configuration-Keeps λ last. write_configuration-Keeps _)))

    start-Keeps : (event : ℕ → ℕ) → Keeps IsGuarded (start device fuel event)
    unfolding start
    start-Keeps event = Keeps-then (write_controller-Keeps device 0xad) (
        Keeps-then (write_controller-Keeps device 0xa7) (
          Keeps-then flush-Keeps (
            Keeps-bind read_configuration-Keeps λ first. Keeps-then (write_configuration-Keeps _) (
              Keeps-bind read_configuration-Keeps λ config.
                Keeps-then (write_controller-Keeps device 0xaa) (
                  Keeps-bind (read-Keeps device)
                    λ result. Keeps-if _ (start_devices-Keeps event config) (Keeps-pure tt))))))

-- Whatever the device answers and however long the driver runs, a byte is read from the data port only directly behind a status that shows one, and each byte is written only directly behind a status that shows room for it, or behind a whole wait of 100000 statuses that showed none.
pub start-IsGuarded :
    (device : Device) (fuel : ℕ) (event : ℕ → ℕ) → IsGuarded (start device fuel event []).1
start-IsGuarded device fuel event = (start-Keeps device fuel event).kept [] empty
