-- ===== src/Usb/Interfaces/Registered.antt =====
-- The ids that setupHID of src/userland/usb/main.c registers, and what getType answers for them.
use mathlib.Core.Option.{some-injective}
use honey_os.Base.{
  ℕ, zero, suc, ◌+◌, ◌*◌, ◌/◌, ◌%◌, ◌^◌, ◌<◌, ◌≤◌, ◌≡◌, ◌∙◌, refl, true, some, List, [], ◌∷◌, ltb,
  ◌==◌, drop, >>=-eq-some, Bool-cases, inl, inr, arith,
}
use honey_os.Base.Bits.{zero-bit_or, bit_or-shift}
use honey_os.Base.Bytes.{read8, read16}
use honey_os.Storage.{find_descriptor, get_endpoint_index}
use honey_os.Storage.Address.{endpoint_address-get_endpoint_index}
use honey_os.Usb.Interfaces.{
  got_descriptor, commanded, registered_hid, setup_hid, interface_type, found, search_endpoints,
  search_interfaces, get_type, endpoint_id,
}

search_endpoints-found :
    (fuel count address : ℕ) (memory : List ℕ) (position : ℕ) (endpoint : List ℕ)
    → find_descriptor fuel memory 5 ≡ some endpoint
    → read8 endpoint 2 ≡ some address
    → search_endpoints fuel (suc count) address memory position ≡ some found
unfolding find_descriptor search_endpoints
search_endpoints-found zero count address memory position endpoint e r = cc
search_endpoints-found (suc fuel) count address memory position endpoint e r =
    let (size, s, e₁) = >>=-eq-some (read8 memory 0) _ e in
    let (kind, k, e₂) = >>=-eq-some (read8 memory 1) _ e₁ in
    elim (Bool-cases (kind == 5)) [
      | inl is ↦
          let own : read8 memory 2 ≡ some address = rw (some-injective _ _ (rw is at e₂)) r in
          let same : (address == address) ≡ true = ground arith in rw (s, k, is, own, same) refl
      | inr other ↦
          rw (s, k, other)
            (search_endpoints-found fuel count address (drop size memory) (position + size) endpoint
              (rw other at e₂) r)
    ]

-- The index of an endpoint comes back from the id.
endpoint_id-index : (id index : ℕ) → id < 2 ^ 16 → endpoint_id id index / 2 ^ 16 ≡ index
endpoint_id-index id index h =
    let low : id / 2 ^ 16 ≡ 0 = omega (arith, h) in
    let high : index * 2 ^ 16 / 2 ^ 16 ≡ index = omega arith in
    bit_or-shift 16 id (index * 2 ^ 16) ∙ rw (low, high) (zero-bit_or index)

-- Where the id of a device has 16 bits and the first interface of its configuration has an endpoint, whose address holds a number from 1 to 15 and zeros in the reserved bits 4 to 6, the id that `setupHID` registers is one for which `getType` answers with the type of that interface.
pub setup_hid-get_type :
    (fuel id size total_length count address : ℕ) (configuration endpoint : List ℕ)
    → id < 2 ^ 16
    → read8 configuration 0 ≡ some size
    → read16 configuration 2 ≡ some total_length
    → size < total_length
    → read8 (drop size configuration) 1 ≡ some 4
    → read8 (drop size configuration) 4 ≡ some (suc count)
    → find_descriptor fuel (drop size configuration) 5 ≡ some endpoint
    → read8 endpoint 2 ≡ some address
    → address < 2 ^ 8
    → address / 16 % 8 ≡ 0
    → 1 ≤ address % 16
    → let slot_id = endpoint_id id (get_endpoint_index address) in
      (setup_hid fuel id (drop size configuration)
        ≡ some (
            got_descriptor (0x22 * 2 ^ 8) 0 1
            ∷ commanded 0x21 0x0b 0 1
            ∷ commanded 0x21 0x0a 0 1
            ∷ registered_hid slot_id
            ∷ []))
      × (get_type fuel slot_id configuration ≡ interface_type (drop size configuration))
unfolding setup_hid get_type search_interfaces find_descriptor
setup_hid-get_type zero id size total_length count address configuration endpoint small s t inside k
      c f a byte unused number =
    cc
setup_hid-get_type (suc fuel) id size total_length count address configuration endpoint small s t
      inside k c f a byte unused number =
    let interface = drop size configuration in
    let (own, o, f₁) = >>=-eq-some (read8 interface 0) _ f in
    let f₂ : find_descriptor fuel (drop own interface) 5 ≡ some endpoint = rw k at f₁ in
    let index = endpoint_id-index id (get_endpoint_index address) small in
    let there = endpoint_address-get_endpoint_index address byte unused number in
    let test : ltb size total_length ≡ true = ground (arith, inside) in
    (
      rw (f, a) refl,
      rw
          (
            s,
            t,
            test,
            o,
            c,
            index,
            there,
            search_endpoints-found fuel count address (drop own interface) (size + own) endpoint f₂
                a,
          )
          refl,
    )
