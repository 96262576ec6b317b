-- ===== src/Drivers/Ps2.antt =====
-- The driver of the controller for keyboard and mouse, src/userland/ps2/main.c. Fuel counts the rounds
-- of each loop that waits for the device for ever.
pub mod Guarded
pub mod Startup
mod Tests
use honey_os.Base.{
  ℕ, zero, suc, ◌+◌, ◌-◌, ◌*◌, ◌/◌, ◌%◌, Bool, true, false, not, ◌||◌, ◌&&◌, ◌==◌, if◌then◌else◌,
  bit_or, bit_and, Option, none, some,
}
use honey_os.Drivers.Ports.{
  Action, read_port, write_port, loaded, registered, Device, Driver, ◌>>=◌, ◌>>◌, pure, out_of_fuel,
  act, io_in, io_out,
}

abbrev pub command : ℕ
command = 0x64

abbrev pub data_port : ℕ
data_port = 0x60

-- The bits of a `Status` and of a `Configuration`.
abbrev pub output_buffer_status : ℕ → Bool
output_buffer_status status = status % 2 == 1

abbrev pub input_buffer_status : ℕ → Bool
input_buffer_status status = status / 2 % 2 == 1

abbrev pub second_port_clock : ℕ → Bool
second_port_clock config = config / 32 % 2 == 1

-- The assignments to `firstInterruptEnabled`, `secondInterruptEnabled` and `firstPortTranslation`.
abbrev pub interrupts_off : ℕ → ℕ
interrupts_off config = bit_and config 0xbc

abbrev pub interrupts_on : ℕ → ℕ
interrupts_on config = bit_or config 3

pub data DeviceType : Type 0 where
  unknown_ps2_device at_keyboard standard_ps2_mouse standard_ps2_mouse_with_scroll_wheel
        mouse_with_5_buttons ibm_thinkpad_keyboard ncdn97_keyboard keyboard_122_keys
        japanese_g_keyboard japanese_p_keyboard japanese_a_keyboard qemu_keyboard :
      DeviceType

-- The number of a type, in the order of the enumeration.
abbrev pub type_number : DeviceType → ℕ
type_number unknown_ps2_device = 0
type_number at_keyboard = 1
type_number standard_ps2_mouse = 2
type_number standard_ps2_mouse_with_scroll_wheel = 3
type_number mouse_with_5_buttons = 4
type_number ibm_thinkpad_keyboard = 5
type_number ncdn97_keyboard = 6
type_number keyboard_122_keys = 7
type_number japanese_g_keyboard = 8
type_number japanese_p_keyboard = 9
type_number japanese_a_keyboard = 10
type_number qemu_keyboard = 11

abbrev pub is_mouse : DeviceType → Bool
is_mouse standard_ps2_mouse = true
is_mouse standard_ps2_mouse_with_scroll_wheel = true
is_mouse mouse_with_5_buttons = true
is_mouse _ = false

-- `deviceType == UnknownPS2Device`
abbrev pub is_unknown : DeviceType → Bool
is_unknown unknown_ps2_device = true
is_unknown _ = false

-- `ps2kb` and `ps2mouse` of the start image, by number.
abbrev pub ps2kb : ℕ
ps2kb = 0

abbrev pub ps2mouse : ℕ
ps2mouse = 1

-- The answers to the identify command: the types that one byte tells, and those that two tell.
abbrev pub first_type : (result1 : ℕ) → Option DeviceType
first_type result1 =
    if result1 == 0xff
    then some at_keyboard
    else if result1 == 0x00
    then some standard_ps2_mouse
    else if result1 == 0x03
    then some standard_ps2_mouse_with_scroll_wheel
    else if result1 == 0x04
    then some mouse_with_5_buttons
    else if not (result1 == 0xab) && not (result1 == 0xac)
    then some unknown_ps2_device
    else none

abbrev pub second_type : (result2 : ℕ) → DeviceType
second_type result2 =
    if result2 == 0x83
    then qemu_keyboard
    else if result2 == 0x84
    then ibm_thinkpad_keyboard
    else if result2 == 0x85
    then ncdn97_keyboard
    else if result2 == 0x86
    then keyboard_122_keys
    else if result2 == 0x90
    then japanese_g_keyboard
    else if result2 == 0x91
    then japanese_p_keyboard
    else if result2 == 0x92
    then japanese_a_keyboard
    else unknown_ps2_device

-- The rounds of the loops that wait for a while.
abbrev pub timeout : ℕ
timeout = 100000

module _ (device : Device) where
  -- The loop of `waitForRead`, with so many rounds left; it returns whether the time is over.
  unfoldable pub wait_for_read : (rounds : ℕ) → Driver Bool
  unfolding io_in
  wait_for_read zero = pure true
  wait_for_read (suc rounds) = do
    status ← io_in device command
    let rest = wait_for_read rounds
    if output_buffer_status status then pure false else rest

  -- The loop of `waitForWrite`
  unfoldable pub wait_for_write : (rounds : ℕ) → Driver (Unit {0})
  unfolding io_in
  wait_for_write zero = pure tt
  wait_for_write (suc rounds) = do
    status ← io_in device command
    let rest = wait_for_write rounds
    if input_buffer_status status then rest else pure tt

  unfoldable pub read : Driver ℕ
  unfolding wait_for_read io_in
  read = do late ← wait_for_read timeout; if late then pure 0xff else io_in device data_port

  -- `writeController`
  unfoldable pub write_controller : (value : ℕ) → Driver (Unit {0})
  unfolding wait_for_write io_out
  write_controller value = do wait_for_write timeout; io_out command value

  -- `writeDevice`
  unfoldable pub write_device : (index value : ℕ) → Driver (Unit {0})
  unfolding wait_for_write io_out write_controller
  write_device index value = do
    if index == 1 then write_controller 0xd4 else pure tt
    wait_for_write timeout
    io_out data_port value

  -- `flushOutputBuffer`
  unfoldable pub flush_output_buffer : (fuel : ℕ) → Driver (Unit {0})
  unfolding io_in
  flush_output_buffer zero = out_of_fuel
  flush_output_buffer (suc fuel) = do
    status ← io_in device command
    let rest = io_in device data_port >> flush_output_buffer fuel
    if output_buffer_status status then rest else pure tt

  -- `while (read() != 0xFA)`
  unfoldable pub wait_for_ack : (fuel : ℕ) → Driver (Unit {0})
  unfolding read
  wait_for_ack zero = out_of_fuel
  wait_for_ack (suc fuel) = do
    value ← read
    let rest = wait_for_ack fuel
    if value == 0xfa then pure tt else rest

  -- What `getDeviceType` does behind the first byte.
  unfoldable pub rest_of_type : Option DeviceType → Driver DeviceType
  unfolding read
  rest_of_type (some kind) = pure kind
  rest_of_type none = do result2 ← read; pure (second_type result2)

  module _ (fuel : ℕ) where
    -- `readConfiguration`
    unfoldable pub read_configuration : Driver ℕ
    unfolding flush_output_buffer write_controller read
    read_configuration = do flush_output_buffer fuel; write_controller 0x20; read

    -- `writeConfiguration`
    unfoldable pub write_configuration : (value : ℕ) → Driver (Unit {0})
    unfolding flush_output_buffer write_controller write_device
    write_configuration value = do
      write_controller 0x60
      write_device 0 value
      flush_output_buffer fuel

    -- `getDeviceType`
    unfoldable pub get_device_type : (index : ℕ) → Driver DeviceType
    unfolding write_device wait_for_ack read rest_of_type
    get_device_type index = do
      write_device index 0xf5
      wait_for_ack fuel
      write_device index 0xf2
      wait_for_ack fuel
      result1 ← read
      rest_of_type (first_type result1)

    -- The branch of `initDevice` for a mouse; 10 is the number of reports in a second.
    unfoldable pub init_mouse : (index : ℕ) → DeviceType → (event : ℕ) → Driver (Unit {0})
    unfolding write_device wait_for_ack flush_output_buffer
    init_mouse index kind event = do
      act (loaded ps2mouse)
      write_device index 0xf6
      wait_for_ack fuel
      flush_output_buffer fuel
      write_device index 0xf3
      wait_for_ack fuel
      flush_output_buffer fuel
      write_device index 10
      wait_for_ack fuel
      flush_output_buffer fuel
      act (registered ps2mouse (type_number kind) event)

    -- The branch of `initDevice` for a keyboard.
    unfoldable pub init_keyboard : (index : ℕ) → DeviceType → (event : ℕ) → Driver (Unit {0})
    unfolding write_device wait_for_ack flush_output_buffer read
    init_keyboard index kind event = do
      act (loaded ps2kb)
      flush_output_buffer fuel
      write_device index 0xf0
      write_device index 0x00
      wait_for_ack fuel
      result ← read
      flush_output_buffer fuel
      write_device index 0xf0
      write_device index 1
      wait_for_ack fuel
      act (registered ps2kb (type_number kind) event)

    -- `initDevice` from the reset of the device on. `event` is what the interrupt controller fires.
    unfoldable pub reset_device : (event : ℕ → ℕ) → (index : ℕ) → Driver (Unit {0})
    unfolding write_device read get_device_type init_mouse init_keyboard
    reset_device event index = do
      write_device index 0xff
      ack ← read
      device_health ← read
      if not (ack == 0xfa) || not (device_health == 0xaa) then pure tt else do
        kind ← get_device_type index
        if is_unknown kind
            then pure tt
            else if is_mouse kind
            then init_mouse index kind (event index)
            else init_keyboard index kind (event index)

    -- `initDevice`
    unfoldable pub init_device : (event : ℕ → ℕ) → (index : ℕ) → Driver (Unit {0})
    unfolding flush_output_buffer write_controller read reset_device
    init_device event index = do
      flush_output_buffer fuel
      write_controller (if index == 0 then 0xab else 0xa9)
      device_health ← read
      if not (device_health == 0) then pure tt else do
        write_controller (if index == 0 then 0xae else 0xa8)
        flush_output_buffer fuel
        reset_device event index

    -- The part of `start` for the second port.
    unfoldable pub start_second : (event : ℕ → ℕ) → Driver (Unit {0})
    unfolding write_controller read_configuration init_device write_device
    start_second event = do
      write_controller 0xa8
      config ← read_configuration
      if second_port_clock config
          then pure tt
          else do write_controller 0xa7; init_device event 1; write_device 1 0xf4

    -- The part of `start` behind the self test; `config` was read before it.
    unfoldable pub start_devices : (event : ℕ → ℕ) → (config : ℕ) → Driver (Unit {0})
    unfolding init_device start_second write_device read_configuration write_configuration
    start_devices event config = do
      init_device event 0
      if second_port_clock config then start_second event else pure tt
      write_device 0 0xf4
      last ← read_configuration
      write_configuration (interrupts_on last)

    -- `start`
    unfoldable pub start : (event : ℕ → ℕ) → Driver (Unit {0})
    unfolding write_controller flush_output_buffer read_configuration write_configuration read
        start_devices
    start event = do
      write_controller 0xad
      write_controller 0xa7
      flush_output_buffer fuel
      first ← read_configuration
      write_configuration (interrupts_off first)
      config ← read_configuration
      write_controller 0xaa
      result ← read
      if result == 0x55 then start_devices event config else pure tt
