-- ===== src/Usb/Interfaces.antt =====
-- The interfaces of a device, src/userland/usb/main.c: the memory of a configuration descriptor, from a
-- descriptor on, is the list of its bytes, and a position is counted from the configuration. Fuel counts
-- the descriptors, since one with size 0 is met again and again.
pub mod Registered
pub mod Types
mod Tests
use honey_os.Base.{
  ℕ, zero, suc, ◌+◌, ◌-◌, ◌*◌, ◌/◌, ◌%◌, ◌^◌, Bool, true, false, Option, none, some, List, [], ◌∷◌,
  ◌++◌, ltb, ◌==◌, if◌then◌else◌, drop, ◌>>=◌, bit_or,
}
use honey_os.Base.Bytes.{read8, read16}
use honey_os.Storage.{find_descriptor, get_endpoint_index, endpoint_address}

-- What the service asks of the host controller and of other services, in this order.
pub data UsbAction : Type 0 where
  endpoints_start : (config_value : ℕ) → UsbAction
  configured : (endpoint : List ℕ) → UsbAction
  endpoints_end : (config_value : ℕ) → UsbAction
  got_descriptor : (value index recipient : ℕ) → UsbAction
  commanded : (request_type request value direction : ℕ) → UsbAction
  registered_hid : (id : ℕ) → UsbAction
  registered_mass_storage : (in_id out_id : ℕ) → UsbAction

-- The inner loop of `setupInterfaces`, for the endpoints that are left: the endpoint descriptors, and
-- the memory and the position of the next interface.
unfoldable pub interface_endpoints :
    (fuel count : ℕ) → List ℕ → (position : ℕ) → Option (List (List ℕ) × List ℕ × ℕ)
interface_endpoints fuel zero memory position = some ([], memory, position)
interface_endpoints zero (suc count) memory position = none
interface_endpoints (suc fuel) (suc count) memory position = do
  size ← read8 memory 0
  kind ← read8 memory 1
  let next = drop size memory
  let found = interface_endpoints fuel count next (position + size) >>= λ (rest, behind, end).
      some (memory ∷ rest, behind, end)
  let skipped = interface_endpoints fuel (suc count) next (position + size)
  if kind == 5 then found else skipped

-- The outer loop of `setupInterfaces`: each interface with its endpoints.
unfoldable pub walk_interfaces :
    (fuel total_length : ℕ) → List ℕ → (position : ℕ) → Option (List (List ℕ × List (List ℕ)))
unfolding interface_endpoints
walk_interfaces zero total_length memory position = none
walk_interfaces (suc fuel) total_length memory position =
    let walked = do
      size ← read8 memory 0
      count ← read8 memory 4
      (endpoints, next, end) ← interface_endpoints fuel count (drop size memory) (position + size)
      rest ← walk_interfaces fuel total_length next end
      some ((memory, endpoints) ∷ rest)
    in if ltb position total_length then walked else some []

-- The interfaces of a configuration.
unfoldable pub interfaces :
    (fuel : ℕ) → (configuration : List ℕ) → Option (List (List ℕ × List (List ℕ)))
unfolding walk_interfaces
interfaces fuel configuration = do
  size ← read8 configuration 0
  total_length ← read16 configuration 2
  walk_interfaces fuel total_length (drop size configuration) size

-- The calls of `configureEndpoint`, one for each endpoint.
abbrev pub configured_all : List (List ℕ) → List UsbAction
configured_all [] = []
configured_all (endpoint ∷ endpoints) = configured endpoint ∷ configured_all endpoints

abbrev pub configured_interfaces : List (List ℕ × List (List ℕ)) → List UsbAction
configured_interfaces [] = []
configured_interfaces ((interface, endpoints) ∷ rest) =
    configured_all endpoints ++ configured_interfaces rest

-- `slot->id | (uint32_t) endpointIndex << 16`
abbrev pub endpoint_id : (id index : ℕ) → ℕ
endpoint_id id index = bit_or id (index * 2 ^ 16)

-- `setupHID`
unfoldable pub setup_hid : (fuel id : ℕ) → (interface : List ℕ) → Option (List UsbAction)
setup_hid fuel id interface = do
  endpoint ← find_descriptor fuel interface 5
  address ← read8 endpoint 2
  some (
      got_descriptor (0x22 * 2 ^ 8) 0 1
      ∷ commanded 0x21 0x0b 0 1
      ∷ commanded 0x21 0x0a 0 1
      ∷ registered_hid (endpoint_id id (get_endpoint_index address))
      ∷ [])

-- `setupMassStorage`: the endpoint with an odd index is the one for output.
unfoldable pub setup_mass_storage : (fuel id : ℕ) → (interface : List ℕ) → Option (List UsbAction)
setup_mass_storage fuel id interface = do
  first ← find_descriptor fuel interface 5
  address1 ← read8 first 2
  size ← read8 first 0
  second ← find_descriptor fuel (drop size first) 5
  address2 ← read8 second 2
  let endpoint1 = get_endpoint_index address1
  let endpoint2 = get_endpoint_index address2
  let out_endpoint = if endpoint1 % 2 == 1 then endpoint1 else endpoint2
  let in_endpoint = if endpoint1 % 2 == 1 then endpoint2 else endpoint1
  some (registered_mass_storage (endpoint_id id in_endpoint) (endpoint_id id out_endpoint) ∷ [])

-- The end of `setupInterfaces`; without an interface it reads through NULL.
unfoldable pub setup_class : (fuel id : ℕ) → List (List ℕ × List (List ℕ)) → Option (List UsbAction)
unfolding setup_hid setup_mass_storage
setup_class fuel id [] = none
setup_class fuel id ((interface, endpoints) ∷ rest) = do
  class ← read8 interface 5
  if class == 3
      then setup_hid fuel id interface
      else if class == 8
      then setup_mass_storage fuel id interface
      else some []

-- `setupInterfaces`
unfoldable pub setup_interfaces : (fuel id : ℕ) → (configuration : List ℕ) → Option (List UsbAction)
unfolding interfaces setup_class
setup_interfaces fuel id configuration = do
  config_value ← read8 configuration 5
  walked ← interfaces fuel configuration
  last ← setup_class fuel id walked
  some (
      endpoints_start config_value
      ∷ (configured_interfaces walked ++ (endpoints_end config_value ∷ last)))

-- `result.value` of `getType`
abbrev pub type_value : (class sub_class protocol : ℕ) → ℕ
type_value class sub_class protocol = class + sub_class * 2 ^ 8 + protocol * 2 ^ 16

-- The answer of `getType` for an interface.
unfoldable pub interface_type : (interface : List ℕ) → Option ℕ
interface_type interface = do
  class ← read8 interface 5
  sub_class ← read8 interface 6
  protocol ← read8 interface 7
  some (type_value class sub_class protocol)

-- The inner loop of `getType`: whether one of the endpoints that are left has the address, or where the
-- next interface is.
pub data Search : Type 0 where
  found : Search
  behind : (next : List ℕ) (position : ℕ) → Search

unfoldable pub search_endpoints : (fuel count address : ℕ) → List ℕ → (position : ℕ) → Option Search
search_endpoints fuel zero address memory position = some (behind memory position)
search_endpoints zero (suc count) address memory position = none
search_endpoints (suc fuel) (suc count) address memory position = do
  size ← read8 memory 0
  kind ← read8 memory 1
  let next = drop size memory
  let tested = do
    own ← read8 memory 2
    let later = search_endpoints fuel count address next (position + size)
    if own == address then some found else later
  let skipped = search_endpoints fuel (suc count) address next (position + size)
  if kind == 5 then tested else skipped

-- The outer loop of `getType`; the answer without such an endpoint is -1.
unfoldable pub search_interfaces :
    (fuel total_length address : ℕ) → List ℕ → (position : ℕ) → Option ℕ
unfolding search_endpoints interface_type
search_interfaces zero total_length address memory position = none
search_interfaces (suc fuel) total_length address memory position =
    let searched = do
      size ← read8 memory 0
      count ← read8 memory 4
      result ← search_endpoints fuel count address (drop size memory) (position + size)
      elim result [
        | found ↦ interface_type memory
        | behind next end ↦ search_interfaces fuel total_length address next end
      ]
    in if ltb position total_length then searched else some (2 ^ 32 - 1)

-- `getType`, for a slot with this configuration.
unfoldable pub get_type : (fuel slot_id : ℕ) → (configuration : List ℕ) → Option ℕ
unfolding search_interfaces
get_type fuel slot_id configuration = do
  size ← read8 configuration 0
  total_length ← read16 configuration 2
  search_interfaces fuel total_length (endpoint_address (slot_id / 2 ^ 16))
      (drop size configuration) size
