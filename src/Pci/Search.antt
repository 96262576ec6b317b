-- ===== src/Pci/Search.antt =====
-- The search for devices ends: each bus is searched once.
use honey_os.Base.{
  ℕ, zero, suc, ◌+◌, ◌≤◌, ◌<◌, ◌≡◌, refl, inl, inr, Bool, true, false, Option, some, [], ◌∷◌, ◌++◌,
  ◌==◌, if◌then◌else◌, update, Bool-cases, ◌>>=◌, arith, length, ◌^◌,
}
use honey_os.Pci.{
  Pci, read8_of, read_device, check_function, check_functions, check_device, check_devices,
  check_bus, check_buses, initialize_pci,
}

-- How many of the first `n` buses have not been searched.
abbrev pub unchecked : ℕ → (ℕ → Bool) → ℕ
unchecked zero checked = 0
unchecked (suc n) checked = if checked n then unchecked n checked else suc (unchecked n checked)

-- What is marked in one state is marked in another.
abbrev pub StaysChecked : Pci → Pci → Type 0
StaysChecked pci pci' = (bus : ℕ) → pci.checked_buses bus ≡ true → pci'.checked_buses bus ≡ true

unchecked-StaysChecked :
    (n : ℕ) (pci pci' : Pci)
    → StaysChecked pci pci'
    → unchecked n pci'.checked_buses ≤ unchecked n pci.checked_buses
unchecked-StaysChecked zero pci pci' stays = omega arith
unchecked-StaysChecked (suc n) pci pci' stays =
    ground (arith, unchecked-StaysChecked n pci pci' stays, stays n)

unchecked-beyond :
    (n bus : ℕ) (checked : ℕ → Bool)
    → n ≤ bus
    → unchecked n (update checked bus true) ≡ unchecked n checked
unfolding update
unchecked-beyond zero bus checked h = refl
unchecked-beyond (suc n) bus checked h =
    ground (arith, unchecked-beyond n bus checked (omega arith))

unchecked-update :
    (n bus : ℕ) (checked : ℕ → Bool)
    → bus < n
    → checked bus ≡ false
    → unchecked n (update checked bus true) + 1 ≡ unchecked n checked
unfolding update
unchecked-update zero bus checked h e = ground arith
unchecked-update (suc n) bus checked h e = elim (Bool-cases (bus == n)) [
  | inl same ↦ ground (arith, unchecked-beyond n bus checked (ground arith))
  | inr other ↦ ground (arith, unchecked-update n bus checked (ground arith) e)
]

-- A step succeeds, and unmarks no bus.
abbrev pub Succeeds : Option Pci → Pci → Type 0
Succeeds result pci = (pci' : Pci) × (result ≡ some pci') × StaysChecked pci pci'

-- A check succeeds wherever fewer than `n` buses are left.
abbrev SucceedsBelow : ℕ → (ℕ → Pci → Option Pci) → Type 0
SucceedsBelow n check =
    (bus : ℕ) (pci : Pci)
    → bus < 2 ^ 8
    → unchecked 256 pci.checked_buses < n
    → Succeeds (check bus pci) pci

-- One step behind the other.
Succeeds-bind :
    (n : ℕ) (first : Option Pci) (next : Pci → Option Pci) (pci : Pci)
    → unchecked 256 pci.checked_buses < n
    → Succeeds first pci
    → ((pci' : Pci) → unchecked 256 pci'.checked_buses < n → Succeeds (next pci') pci')
    → Succeeds (first >>= next) pci
Succeeds-bind n first next pci few (pci₁, e, stays) later =
    let (pci₂, e', stays') =
      later pci₁ (omega (arith, unchecked-StaysChecked 256 pci pci₁ stays, few)) in
    (pci₂, rw e e', λ bus h. stays' bus (stays bus h))

-- Either branch of a test.
Succeeds-if :
    (test : Bool) {first second : Option Pci} (pci : Pci)
    → Succeeds first pci
    → Succeeds second pci
    → Succeeds (if test then first else second) pci
Succeeds-if true pci a b = a
Succeeds-if false pci a b = b

Succeeds-some : (pci : Pci) → Succeeds (some pci) pci
Succeeds-some pci = (pci, refl, λ bus h. h)

module _ (config : ℕ → ℕ) (n : ℕ) (check : ℕ → Pci → Option Pci)
    (below : SucceedsBelow n check) where
  read8_of-lt :
      (bus device function offset : ℕ) → read8_of config bus device function offset < 2 ^ 8
  read8_of-lt bus device function offset = omega arith

  check_function-Succeeds :
      (bus device function : ℕ) (pci : Pci)
      → unchecked 256 pci.checked_buses < n
      → Succeeds (check_function config check bus device function pci) pci
  unfolding check_function
  check_function-Succeeds bus device function pci few =
      let found = read_device config (length pci.pci_devices) bus device function in
      let pci₁ = record pci { pci_devices = pci.pci_devices ++ found ∷ [] } in
      let behind =
        below (read8_of config bus device function 0x19) pci₁ (read8_of-lt bus device function 0x19)
          few in
      Succeeds-if _ pci (Succeeds-some pci)
        (Succeeds-if _ pci (behind.0, behind.1, behind.2) (pci₁, refl, λ b h. h))

  check_functions-Succeeds :
      (m bus device function : ℕ) (pci : Pci)
      → unchecked 256 pci.checked_buses < n
      → Succeeds (check_functions config check m bus device function pci) pci
  unfolding check_functions
  check_functions-Succeeds zero bus device function pci few = Succeeds-some pci
  check_functions-Succeeds (suc m) bus device function pci few =
      Succeeds-bind n _ (check_functions config check m bus device (function + 1)) pci few
        (Succeeds-if _ pci (Succeeds-some pci)
          (check_function-Succeeds bus device function pci few))
        (check_functions-Succeeds m bus device (function + 1))

  check_device-Succeeds :
      (bus device : ℕ) (pci : Pci)
      → unchecked 256 pci.checked_buses < n
      → Succeeds (check_device config check bus device pci) pci
  unfolding check_device
  check_device-Succeeds bus device pci few = Succeeds-if _ pci (Succeeds-some pci) (
      Succeeds-if _ pci (check_functions-Succeeds 8 bus device 0 pci few)
        (check_function-Succeeds bus device 0 pci few))

  check_devices-Succeeds :
      (m bus device : ℕ) (pci : Pci)
      → unchecked 256 pci.checked_buses < n
      → Succeeds (check_devices config check m bus device pci) pci
  unfolding check_devices
  check_devices-Succeeds zero bus device pci few = Succeeds-some pci
  check_devices-Succeeds (suc m) bus device pci few =
      Succeeds-bind n _ (check_devices config check m bus (device + 1)) pci few
        (check_device-Succeeds bus device pci few) (check_devices-Succeeds m bus (device + 1))

module _ (config : ℕ → ℕ) where
  check_bus-Succeeds : (fuel : ℕ) → SucceedsBelow fuel (check_bus config fuel)
  unfolding check_bus update
  check_bus-Succeeds zero bus pci h few = ground arith
  check_bus-Succeeds (suc fuel) bus pci h few = elim (Bool-cases (pci.checked_buses bus)) [
    | inl e ↦ rw (check_bus, e) (Succeeds-some pci)
    | inr e ↦
        let marked = record pci { checked_buses = update pci.checked_buses bus true } in
        let fewer = unchecked-update 256 bus pci.checked_buses h e in
        let (pci', e', stays) =
          check_devices-Succeeds config fuel (check_bus config fuel) (check_bus-Succeeds fuel) 32
            bus 0 marked (omega (arith, fewer, few)) in
        rw (check_bus, e) (pci', e', λ b k. stays b (ground arith))
  ]

  check_buses-Succeeds :
      (fuel m bus : ℕ) (pci : Pci)
      → bus + m ≤ 2 ^ 8
      → unchecked 256 pci.checked_buses < fuel
      → Succeeds (check_buses config fuel m bus pci) pci
  unfolding check_buses
  check_buses-Succeeds fuel zero bus pci h few = Succeeds-some pci
  check_buses-Succeeds fuel (suc m) bus pci h few =
      Succeeds-bind fuel _ (check_buses config fuel m (bus + 1)) pci few
        (check_bus-Succeeds fuel bus pci (omega arith) few)
        (λ pci' few'. check_buses-Succeeds fuel m (bus + 1) pci' (omega arith) few')

unchecked-le : (n : ℕ) (checked : ℕ → Bool) → unchecked n checked ≤ n
unchecked-le zero checked = omega arith
unchecked-le (suc n) checked = ground (arith, unchecked-le n checked)

-- Whatever the devices show, the search for devices ends: bridges behind bridges, and those that lead back to a bus that was searched, need no more fuel than 257, one for each bus and one more, and no bus that was marked is unmarked.
pub initialize_pci-Succeeds :
    (config : ℕ → ℕ) (pci : Pci) → Succeeds (initialize_pci config 257 pci) pci
unfolding initialize_pci
initialize_pci-Succeeds config pci =
    let few : unchecked 256 pci.checked_buses < 257 =
      omega (arith, unchecked-le 256 pci.checked_buses) in
    Succeeds-if _ pci (check_buses-Succeeds config 257 8 0 pci (omega arith) few)
      (check_bus-Succeeds config 257 0 pci (omega arith) few)
