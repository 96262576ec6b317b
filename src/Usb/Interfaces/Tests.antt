-- ===== src/Usb/Interfaces/Tests.antt =====
-- A keyboard: one interface with an input endpoint.
use honey_os.Base.{ℕ, ◌*◌, ◌^◌, ◌/◌, ◌≡◌, refl, some, List, [], ◌∷◌, arith}
use honey_os.Storage.{find_descriptor, get_endpoint_index, endpoint_address}
use honey_os.Usb.Interfaces.{
  endpoints_start, configured, endpoints_end, got_descriptor, commanded, registered_hid,
  endpoint_id, interfaces, interface_type, setup_hid, setup_interfaces, get_type,
}
use honey_os.Usb.Interfaces.Registered.{setup_hid-get_type}
use honey_os.Usb.Interfaces.Types.{type_of, get_type-listed}

abbrev endpoint : List ℕ
endpoint = 7 ∷ 5 ∷ 0x81 ∷ 3 ∷ 8 ∷ 0 ∷ 10 ∷ []

abbrev interface : List ℕ
interface = 9 ∷ 4 ∷ 0 ∷ 0 ∷ 1 ∷ 3 ∷ 1 ∷ 1 ∷ 0 ∷ 9 ∷ 33 ∷ 17 ∷ 1 ∷ 0 ∷ 1 ∷ 34 ∷ 63 ∷ 0 ∷ endpoint

abbrev configuration : List ℕ
configuration = 9 ∷ 2 ∷ 34 ∷ 0 ∷ 1 ∷ 1 ∷ 0 ∷ 0xa0 ∷ 50 ∷ interface

-- The keyboard is registered with its second context, the first input endpoint.
setup_interfaces-keyboard :
    setup_interfaces 5 7 configuration
    ≡ some (
        endpoints_start 1
        ∷ configured endpoint
        ∷ endpoints_end 1
        ∷ got_descriptor 0x2200 0 1
        ∷ commanded 0x21 0x0b 0 1
        ∷ commanded 0x21 0x0a 0 1
        ∷ registered_hid 0x2_0007
        ∷ [])
unfolding setup_interfaces find_descriptor get_endpoint_index
setup_interfaces-keyboard = refl

get_type-listed_example :
    get_type 5 0x2_0007 configuration
    ≡ type_of (endpoint_address (0x2_0007 / 2 ^ 16)) ((interface, endpoint ∷ []) ∷ [])
unfolding interfaces
get_type-listed_example =
    get_type-listed 5 0x2_0007 configuration ((interface, endpoint ∷ []) ∷ []) refl

setup_hid-get_type_example :
    (setup_hid 5 7 interface
      ≡ some (
          got_descriptor (0x22 * 2 ^ 8) 0 1
          ∷ commanded 0x21 0x0b 0 1
          ∷ commanded 0x21 0x0a 0 1
          ∷ registered_hid (endpoint_id 7 (get_endpoint_index 0x81))
          ∷ []))
    × (get_type 5 (endpoint_id 7 (get_endpoint_index 0x81)) configuration
        ≡ interface_type interface)
unfolding find_descriptor
setup_hid-get_type_example =
    setup_hid-get_type 5 7 9 34 0 0x81 configuration endpoint (omega arith) refl refl (omega arith)
      refl refl refl refl (omega arith) refl (omega arith)
