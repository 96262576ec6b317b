-- ===== src/Storage/Address.antt =====
-- Numbers that go through bytes, and endpoints that go through their addresses.
use honey_os.Base.{ℕ, ◌/◌, ◌%◌, ◌^◌, ◌<◌, ◌≤◌, ◌≡◌, arith}
use honey_os.Storage.{get_endpoint_index, endpoint_address}

-- The index of an endpoint, from 1 to 30, gives back its address.
pub endpoint_address-get_endpoint_index :
    (address : ℕ)
    → address < 2 ^ 8
    → address / 16 % 8 ≡ 0
    → 1 ≤ address % 16
    → endpoint_address (get_endpoint_index address) ≡ address
unfolding endpoint_address get_endpoint_index
endpoint_address-get_endpoint_index address h r e = omega arith
