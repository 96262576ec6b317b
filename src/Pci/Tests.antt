-- ===== src/Pci/Tests.antt =====
-- A bus on which each device is a bridge to the bus itself.
use honey_os.Base.{◌≡◌, refl, false, []}
use honey_os.Pci.{Pci, config_address, initialize_pci}
use honey_os.Pci.Search.{Succeeds, initialize_pci-Succeeds}

abbrev nothing_checked : Pci
nothing_checked = record { checked_buses = λ bus. false; pci_devices = [] }

address : config_address 1 2 3 4 ≡ 0x8001_1304
unfolding config_address
address = refl

initialize_pci-Succeeds_example :
    Succeeds (initialize_pci (λ a. 0x0604_0000) 257 nothing_checked) nothing_checked
initialize_pci-Succeeds_example = initialize_pci-Succeeds (λ a. 0x0604_0000) nothing_checked
