-- ===== src/Pci.antt =====
-- The search for devices on the pci bus, src/userland/lspci/main.c and pci.h. The words that the
-- devices show through the two ports, by the address that is written to the first, are an argument.
pub mod Search
mod Tests
use honey_os.Base.{
  ℕ, zero, suc, ◌+◌, ◌-◌, ◌*◌, ◌/◌, ◌%◌, ◌^◌, Bool, true, false, not, ◌&&◌, ◌||◌, Option, none,
  some, List, [], ◌∷◌, ◌++◌, leb, ltb, ◌==◌, if◌then◌else◌, update, get_elem?, get_or, length,
  ◌>>=◌, bit_or, bit_and,
}

-- `PciDevice`
pub record PciDevice : Type 0 where
  pub id : ℕ
  pub bus : ℕ
  pub device : ℕ
  pub function : ℕ
  pub class : ℕ
  pub subclass : ℕ
  pub configuration : ℕ
  pub device_id : ℕ
  pub vendor_id : ℕ
  pub programming_interface : ℕ
  pub bar : List ℕ

-- `checkedBuses` and `pciDevices`
pub record Pci : Type 0 where
  pub checked_buses : ℕ → Bool
  pub pci_devices : List PciDevice

-- The address of a register: of its word, or of the register itself.
unfoldable pub config_address : (bus device function offset : ℕ) → ℕ
config_address bus device function offset =
    bit_or (bit_or (bit_or (bit_or (bus * 2 ^ 16) (device * 2 ^ 11)) (function * 2 ^ 8)) offset)
      0x8000_0000
    % 2 ^ 32

-- `pciConfigRead`
unfoldable pub pci_config_read : (ℕ → ℕ) → (bus device function offset : ℕ) → ℕ
unfolding config_address
pci_config_read config bus device function offset =
    config (config_address bus device function (bit_and offset 0xfc)) / 2 ^ (offset % 4 * 8)

-- `READ16` and `READ8`
abbrev pub read16_of : (ℕ → ℕ) → (bus device function offset : ℕ) → ℕ
read16_of config bus device function offset =
    pci_config_read config bus device function offset % 2 ^ 16

abbrev pub read8_of : (ℕ → ℕ) → (bus device function offset : ℕ) → ℕ
read8_of config bus device function offset =
    pci_config_read config bus device function offset % 2 ^ 8

-- A write to a port: its number, the value and the width.
abbrev pub PortWrite : Type 0
PortWrite = ℕ × ℕ × ℕ

-- `pciConfigWriteByte`, which writes two bytes.
unfoldable pub pci_config_write_byte : (bus device function offset value : ℕ) → List PortWrite
unfolding config_address
pci_config_write_byte bus device function offset value =
    (0xcf8, config_address bus device function offset, 4) ∷ (0xcfc, value, 2) ∷ []

-- `pciConfigWriteWord`
unfoldable pub pci_config_write_word : (bus device function offset value : ℕ) → List PortWrite
unfolding pci_config_write_byte
pci_config_write_word bus device function offset value =
    pci_config_write_byte bus device function offset (value % 2 ^ 8)
    ++ pci_config_write_byte bus device function ((offset + 1) % 2 ^ 8) (value / 2 ^ 8 % 2 ^ 8)

module _ (config : ℕ → ℕ) where
  -- The loop that reads the base addresses, `n` of them from number `i` on.
  unfoldable pub read_bars : (n i bus device function : ℕ) → List ℕ
  unfolding pci_config_read
  read_bars zero i bus device function = []
  read_bars (suc n) i bus device function =
      pci_config_read config bus device function (0x10 + 4 * i)
      ∷ read_bars n (i + 1) bus device function

  -- The device that `checkFunction` adds to a list of `id` others.
  unfoldable pub read_device : (id bus device function : ℕ) → PciDevice
  unfolding read_bars
  read_device id bus device function = record {
    id = id;
    bus = bus;
    device = device;
    function = function;
    class = read8_of config bus device function 0xb;
    subclass = read8_of config bus device function 0xa;
    configuration = read16_of config bus device function 4;
    device_id = read16_of config bus device function 2;
    vendor_id = read16_of config bus device function 0;
    programming_interface = read8_of config bus device function 9;
    bar = read_bars 6 0 bus device function;
  }

  -- `checkFunction`, over the function that checks the bus behind a bridge.
  unfoldable pub check_function :
      (ℕ → Pci → Option Pci) → (bus device function : ℕ) → Pci → Option Pci
  unfolding read_device
  check_function check_behind bus device function pci =
      let class = read8_of config bus device function 0xb in
      let found = read_device (length pci.pci_devices) bus device function in
      let pci₁ = record pci { pci_devices = pci.pci_devices ++ found ∷ [] } in
      let behind = check_behind (read8_of config bus device function 0x19) pci₁ in
      if class == 0 || class == 0xff
      then some pci
      else if class == 6 && found.subclass == 4
      then behind
      else some pci₁

  -- The loop over the functions of a device, `n` of them from `function` on.
  unfoldable pub check_functions :
      (ℕ → Pci → Option Pci) → (n bus device function : ℕ) → Pci → Option Pci
  unfolding check_function
  check_functions check_behind zero bus device function pci = some pci
  check_functions check_behind (suc n) bus device function pci = do
    pci₁ ←
        (if read16_of config bus device function 0 == 0xffff
          then some pci
          else check_function check_behind bus device function pci)
    check_functions check_behind n bus device (function + 1) pci₁

  -- `checkDevice`
  unfoldable pub check_device : (ℕ → Pci → Option Pci) → (bus device : ℕ) → Pci → Option Pci
  unfolding check_functions
  check_device check_behind bus device pci =
      let several = check_functions check_behind 8 bus device 0 pci in
      let one = check_function check_behind bus device 0 pci in
      if read16_of config bus device 0 0 == 0xffff
      then some pci
      else if leb 0x80 (read8_of config bus device 0 0xe)
      then several
      else one

  -- The loop of `checkBus`, `n` devices from `device` on.
  unfoldable pub check_devices : (ℕ → Pci → Option Pci) → (n bus device : ℕ) → Pci → Option Pci
  unfolding check_device
  check_devices check_behind zero bus device pci = some pci
  check_devices check_behind (suc n) bus device pci = do
    pci₁ ← check_device check_behind bus device pci
    check_devices check_behind n bus (device + 1) pci₁

  -- `checkBus`; the fuel bounds how many bridges lie behind each other.
  unfoldable pub check_bus : (fuel bus : ℕ) → Pci → Option Pci
  unfolding check_devices
  check_bus zero bus pci = none
  check_bus (suc fuel) bus pci =
      let marked = record pci { checked_buses = update pci.checked_buses bus true } in
      let checked = check_devices (check_bus fuel) 32 bus 0 marked in
      if pci.checked_buses bus then some pci else checked

  -- The loop over the buses, `n` of them from `bus` on.
  unfoldable pub check_buses : (fuel n bus : ℕ) → Pci → Option Pci
  unfolding check_bus
  check_buses fuel zero bus pci = some pci
  check_buses fuel (suc n) bus pci = do
    pci₁ ← check_bus fuel bus pci
    check_buses fuel n (bus + 1) pci₁

  -- `initializePci`, behind the functions that it offers.
  unfoldable pub initialize_pci : (fuel : ℕ) → Pci → Option Pci
  unfolding check_buses
  initialize_pci fuel pci =
      let several = check_buses fuel 8 0 pci in
      let one = check_bus fuel 0 pci in
      if leb 0x80 (pci_config_read config 0 0 0 0xe % 2 ^ 8) then several else one

  -- `getDeviceClass`; 0 where there is no such device.
  unfoldable pub get_device_class : (device_id : ℕ) → Pci → ℕ
  get_device_class device_id pci = elim (get_elem? pci.pci_devices device_id) [
    | none ↦ 0
    | some found ↦
        bit_or (bit_or (found.class * 2 ^ 16) (found.subclass * 2 ^ 8)) found.programming_interface
  ]

  -- `getBaseAddress`; `none`: there is no base address `n`.
  unfoldable pub get_base_address : (device_id n : ℕ) → Pci → Option ℕ
  get_base_address device_id n pci = elim (get_elem? pci.pci_devices device_id) [
    | none ↦ some 0
    | some found ↦ get_elem? found.bar n
  ]

  -- `getPCIInterrupt`
  unfoldable pub get_pci_interrupt : (device_id : ℕ) → Pci → ℕ
  get_pci_interrupt device_id pci = elim (get_elem? pci.pci_devices device_id) [
    | none ↦ 0
    | some found ↦ read8_of config found.bus found.device found.function 0x3c
  ]

  -- What `enableBusMaster` writes; behind it the configuration is read again.
  unfoldable pub enable_bus_master : PciDevice → List PortWrite
  unfolding pci_config_write_byte
  enable_bus_master found =
      let writes =
        pci_config_write_byte found.bus found.device found.function 4
          (bit_or found.configuration 6) in
      if found.configuration / 4 % 2 == 1 then [] else writes
