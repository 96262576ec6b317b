-- ===== src/Usb/Xhci/Tests.antt =====
-- A device with an input endpoint, and an event ring with two events.
use honey_os.Base.{
  ℕ, ◌%◌, ◌≤◌, ◌≡◌, refl, ◌==◌, true, false, if◌then◌else◌, Option, none, some, List, [], ◌∷◌,
  length, arith,
}
use honey_os.Usb.Ring.{XhciTrb, TrbRing, bool_value, setup_trb_ring}
use honey_os.Usb.Xhci.{
  EndpointContext, DeviceContext, SlotXhci, xhci_setup_endpoints_start, xhci_interrupt,
}
use honey_os.Usb.Xhci.Contexts.{configure_all}
use honey_os.Usb.Xhci.Interrupt.{xhci_interrupt-Ends}

abbrev event : (data_low control : ℕ) → XhciTrb
event data_low control = record {
  data_low = data_low;
  data_high = 0;
  status = 0;
  control = control;
}

abbrev context : EndpointContext
context = record {
  multiplier = 0;
  max_primary_streams = 0;
  interval = 0;
  error_count = 0;
  endpoint_type = 0;
  max_burst_size = 0;
  max_packet_size = 0;
  transfer_dequeue_pointer_low = 0;
  transfer_dequeue_pointer_high = 0;
  average_trb_length = 0;
}

abbrev device : DeviceContext
device = record {
  slot = record {
    speed = 0;
    multi_tt = 0;
    context_entry_count = 1;
    root_hub_port = 1;
    interrupter_target = 0;
    device_address = 0;
  };
  endpoints = λ i. context;
}

abbrev slot : SlotXhci
slot = record {
  slot_index = 1;
  port_index = 1;
  input_context = record { add_context_flags = 3; device_context = device };
  device_context = device;
  control_ring = setup_trb_ring (λ i. event 0 0) 0x1000 255;
  endpoint_rings = λ i. setup_trb_ring (λ i. event 0 0) 0 255;
}

abbrev or_slot : Option SlotXhci → SlotXhci
or_slot none = slot
or_slot (some s) = s

abbrev endpoint : List ℕ
endpoint = 7 ∷ 5 ∷ 0x81 ∷ 3 ∷ 8 ∷ 0 ∷ 10 ∷ []

abbrev configured : SlotXhci
configured =
    or_slot
      (configure_all (λ i. event 0 0) ((0x2000, endpoint) ∷ []) (xhci_setup_endpoints_start slot))

-- Four blocks with the link; the next two belong to the driver, the second of them of a new lap.
abbrev events : TrbRing
events = record {
  trbs = λ i. if i == 2 then event 20 1 else if i == 0 then event 30 0 else event 10 1;
  physical = 0x1000;
  size = 4;
  enqueue = 0;
  dequeue = 2;
  cycle = true;
}

abbrev fired : List (ℕ × ℕ)
fired = elim (xhci_interrupt 5 1 events) [ none ↦ [] | some result ↦ result.0 ]

xhci_interrupt-two : fired ≡ (2, 20) ∷ (0, 30) ∷ []
unfolding xhci_interrupt
xhci_interrupt-two = refl

xhci_interrupt-Ends_example :
    (result : List (ℕ × ℕ) × TrbRing) × (xhci_interrupt 5 1 events ≡ some result)
    × (length result.0 ≤ 4)
    × (((result.1.trbs result.1.dequeue).control % 2 == bool_value result.1.cycle) ≡ false)
xhci_interrupt-Ends_example = xhci_interrupt-Ends 1 events (omega arith) (omega arith) (omega arith)
