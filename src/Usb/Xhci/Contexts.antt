-- ===== src/Usb/Xhci/Contexts.antt =====
-- The endpoints that src/userland/usb/xhci/xhci.c asks the controller to add.
use honey_os.Base.{ℕ, Bool, false, ◌||◌, Option, none, some, List, [], ◌∷◌, ◌==◌, ◌>>=◌}
use honey_os.Base.Bytes.{read8}
use honey_os.Storage.{get_endpoint_index}
use honey_os.Usb.Ring.{XhciTrb}
use honey_os.Usb.Xhci.{SlotXhci, do_xhci_write_normal, xhci_configure_endpoint}

-- `configureEndpoint` for one endpoint after the other, each with the address of its ring.
abbrev pub configure_all : (ℕ → XhciTrb) → List (ℕ × List ℕ) → SlotXhci → Option SlotXhci
configure_all blocks [] slot = some slot
configure_all blocks ((physical, endpoint) ∷ endpoints) slot =
    xhci_configure_endpoint blocks physical endpoint slot >>= λ result.
    configure_all blocks endpoints result.1

-- The doorbell that a transfer for an endpoint rings.
abbrev pub rung_doorbell : (buffer size index : ℕ) → SlotXhci → ℕ
rung_doorbell buffer size index slot = (do_xhci_write_normal buffer index size slot).0.doorbell

-- Whether a transfer for one of the endpoints rings a doorbell.
abbrev pub has_doorbell : (buffer size : ℕ) → SlotXhci → (doorbell : ℕ) → List (ℕ × List ℕ) → Bool
has_doorbell buffer size slot doorbell [] = false
has_doorbell buffer size slot doorbell ((physical, endpoint) ∷ endpoints) =
    (elim (read8 endpoint 2) [
      | none ↦ false
      | some address ↦ rung_doorbell buffer size (get_endpoint_index address) slot == doorbell
    ])
    || has_doorbell buffer size slot doorbell endpoints

abbrev flags : SlotXhci → ℕ
flags slot = slot.input_context.add_context_flags
