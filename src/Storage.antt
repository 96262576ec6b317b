-- ===== src/Storage.antt =====
-- Disks behind usb: the bulk transfers of src/userland/usbStorage/main.c, the commands of
-- src/userland/scisi/main.c, the partitions of src/userland/mbr/main.c, and the descriptors by which
-- src/userland/usb/main.c finds the endpoints.
pub mod Address
mod Tests
use honey_os.Base.{
  ℕ, zero, suc, ◌+◌, ◌-◌, ◌*◌, ◌/◌, ◌%◌, ◌^◌, Bool, true, false, not, ◌&&◌, ◌||◌, Option, none,
  some, List, [], ◌∷◌, ◌++◌, leb, ltb, ◌==◌, if◌then◌else◌, get_elem?, get_or, length, drop, take,
  ◌>>=◌, bit_or,
}
use honey_os.Base.Bytes.{read8, read32, le32}

-- Four bytes, the most significant one first.
unfoldable pub big_endian : ℕ → List ℕ
big_endian n = n / 2 ^ 24 % 2 ^ 8 ∷ n / 2 ^ 16 % 2 ^ 8 ∷ n / 2 ^ 8 % 2 ^ 8 ∷ n % 2 ^ 8 ∷ []

-- The number that four bytes of a response make.
unfoldable pub from_big_endian : List ℕ → Option ℕ
from_big_endian bytes = do
  b₀ ← get_elem? bytes 0
  b₁ ← get_elem? bytes 1
  b₂ ← get_elem? bytes 2
  b₃ ← get_elem? bytes 3
  some (bit_or (bit_or (bit_or (b₀ * 2 ^ 24) (b₁ * 2 ^ 16)) (b₂ * 2 ^ 8)) b₃)

-- How many blocks `read` asks for.
unfoldable pub block_count : (size block_size : ℕ) → ℕ
block_count size block_size = (size - 1) / block_size + 1

-- `Read10Command` as `read` fills it: the bytes from the first on, `size` and `transferSize` before
-- them. The structure ends with two bytes of padding.
unfoldable pub read10_command : (address size block_size : ℕ) → List ℕ
unfolding big_endian block_count
read10_command address size block_size =
    let blocks = block_count size block_size in
    le32 12
    ++ le32 size
    ++ 0x28 ∷ 0 ∷ big_endian address
    ++ 0 ∷ blocks / 2 ^ 8 % 2 ^ 8 ∷ blocks % 2 ^ 8 ∷ 0 ∷ 0 ∷ 0 ∷ []

-- `InquiryCommand` as `doInquiry` fills it, for an answer of `allocation` bytes.
unfoldable pub inquiry_command : (allocation : ℕ) → List ℕ
inquiry_command allocation =
    le32 10 ++ le32 (allocation % 2 ^ 8) ++ 0x12 ∷ 0 ∷ 0 ∷ 0 ∷ allocation % 2 ^ 8 ∷ 0 ∷ []

-- `ReadCapacity10Command` as `readSize` fills it, with its padding.
unfoldable pub read_capacity_command : List ℕ
read_capacity_command = le32 12 ++ le32 8 ++ 0x25 ∷ 0 ∷ 0 ∷ 0 ∷ 0 ∷ 0 ∷ 0 ∷ 0 ∷ 0 ∷ 0 ∷ 0 ∷ 0 ∷ []

-- What `readSize` finds in a response: the last block and the size of a block.
unfoldable pub read_capacity : List ℕ → Option (ℕ × ℕ)
unfolding from_big_endian
read_capacity response = do
  last ← from_big_endian (drop 4 response)
  block_size ← from_big_endian (drop 8 response)
  some (last, block_size)

-- The command block wrapper that `out` makes of a command; what is behind the `size` bytes of it in
-- its field of sixteen is zero.
unfoldable pub wrap_command : List ℕ → Option (List ℕ)
wrap_command command = do
  size ← read32 command 0
  transfer_size ← read32 command 4
  some (
      le32 31
      ++ le32 0x4342_5355
      ++ le32 0xb105_f00d
      ++ le32 transfer_size
      ++ 0x80 ∷ 0 ∷ size % 2 ^ 8 ∷ take size (drop 8 command))

-- What `in` answers after it has read a status wrapper: 0, or -1 for a wrong signature or a status
-- that is not good.
unfoldable pub check_status : List ℕ → Option ℕ
check_status wrapper = do
  signature ← read32 wrapper 4
  status ← read8 wrapper 16
  some (if signature == 0x5342_5355 && status == 0 then 0 else 2 ^ 32 - 1)

-- `UsbStorageSubClass` and `UsbStorageProtocol` by the numbers of an interface.
unfoldable pub sub_class : ℕ → ℕ
sub_class n = if leb n 8 then n else 9

unfoldable pub protocol : ℕ → ℕ
protocol n = if leb n 2 then n else if n == 0x50 then 3 else if n == 0x62 then 4 else 5

-- What `setup` does with the types of the two pipes: nothing, a device, or a device that is given
-- to the scisi service too.
pub data Setup : Type 0 where
  refused : Setup
  registered : Setup
  registered_scisi : Setup

unfoldable pub setup : (type_in type_out : ℕ) → Setup
unfolding sub_class protocol
setup type_in type_out =
    let class = type_in % 2 ^ 8 in
    let kind = sub_class (type_in / 2 ^ 8 % 2 ^ 8) in
    let way = protocol (type_in / 2 ^ 16 % 2 ^ 8) in
    if not (type_in == type_out)
    then refused
    else if not (class == 8)
    then refused
    else if not (way == 3)
    then refused
    else if kind == 6
    then registered_scisi
    else registered

-- `PartitionTableEntry`, the fields that are used.
pub record PartitionTableEntry : Type 0 where
  pub active : ℕ
  pub kind : ℕ
  pub lba_start : ℕ
  pub sector_count : ℕ

unfoldable pub partition_entry : List ℕ → Option PartitionTableEntry
partition_entry bytes = do
  active ← read8 bytes 0
  kind ← read8 bytes 4
  start ← read32 bytes 8
  count ← read32 bytes 12
  some record { active = active; kind = kind; lba_start = start; sector_count = count }

-- The loop of `registerDevice` over the entries, `n` of them from `entry` on: the partitions that are
-- not empty, with their numbers.
unfoldable pub partitions : (n entry : ℕ) → List ℕ → Option (List (ℕ × PartitionTableEntry))
unfolding partition_entry
partitions zero entry mbr = some []
partitions (suc n) entry mbr = do
  partition ← partition_entry (drop (16 * entry) mbr)
  rest ← partitions n (entry + 1) mbr
  some (
      if partition.kind == 0 || partition.sector_count == 0
      then rest
      else (entry, partition) ∷ rest)

-- `registerDevice` on the first sector of a disk: no partitions without the signature.
unfoldable pub register_sector : List ℕ → Option (List (ℕ × PartitionTableEntry))
unfolding partitions
register_sector sector = do
  let mbr = drop 446 sector
  first ← read8 mbr 64
  second ← read8 mbr 65
  found ← partitions 4 0 mbr
  some (if first == 0x55 && second == 0xaa then found else [])

-- `findDescriptor`: the memory from the first descriptor of a type on. `none`: there is none, or one
-- with size 0 stands before it.
unfoldable pub find_descriptor : (fuel : ℕ) → List ℕ → (descriptor_type : ℕ) → Option (List ℕ)
find_descriptor zero memory descriptor_type = none
find_descriptor (suc fuel) memory descriptor_type = do
  size ← read8 memory 0
  kind ← read8 memory 1
  let later = find_descriptor fuel (drop size memory) descriptor_type
  if kind == descriptor_type then some memory else later

-- `getEndpointIndex` of an endpoint's address.
unfoldable pub get_endpoint_index : (address : ℕ) → ℕ
get_endpoint_index address = (2 ^ 8 + address % 16 * 2 - 1 + address / 2 ^ 7) % 2 ^ 8

-- The address that `getType` computes from an index.
unfoldable pub endpoint_address : (index : ℕ) → ℕ
endpoint_address index = let endpoint = (index + 1) % 2 ^ 8 in endpoint / 2 + endpoint % 2 * 2 ^ 7

-- `usbReadString`: every second byte from the third on.
unfoldable pub string_chars : (n i : ℕ) → List ℕ → Option (List ℕ)
string_chars zero i buffer = some []
string_chars (suc n) i buffer = do
  c ← read8 buffer ((i + 1) * 2)
  rest ← string_chars n (i + 1) buffer
  some (c ∷ rest)

unfoldable pub usb_read_string : List ℕ → Option (List ℕ)
unfolding string_chars
usb_read_string buffer = do
  size ← read8 buffer 0
  string_chars (if size == 0 then 2 ^ 32 - 1 else (size - 2) / 2) 0 buffer
