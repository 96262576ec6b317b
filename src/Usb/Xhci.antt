-- ===== src/Usb/Xhci.antt =====
-- The contexts and the transfers of a usb device, src/userland/usb/xhci/xhci.c, with xhciGetDescriptor of
-- commands.c and xhciInterrupt of controller.c beside it. A field of some bits keeps that many.
pub mod Contexts
pub mod Interrupt
mod Tests
use honey_os.Base.{
  ℕ, zero, suc, ◌+◌, ◌-◌, ◌*◌, ◌/◌, ◌%◌, ◌^◌, Bool, true, false, Option, none, some, List, [], ◌∷◌,
  ltb, ◌==◌, if◌then◌else◌, update, bit_or, ◌>>=◌,
}
use honey_os.Base.Bytes.{read8, read16}
use honey_os.Base.Word.{set_bit}
use honey_os.Storage.{get_endpoint_index}
use honey_os.Usb.Ring.{
  XhciTrb, TrbRing, enqueue_command, trb_ring_fetch, setup_trb_ring, xhci_command, address_device,
  command_type, command_slot_id,
}

-- `XHCIEndpointContext`, the fields that are written.
pub record EndpointContext : Type 0 where
  pub multiplier : ℕ
  pub max_primary_streams : ℕ
  pub interval : ℕ
  pub error_count : ℕ
  pub endpoint_type : ℕ
  pub max_burst_size : ℕ
  pub max_packet_size : ℕ
  pub transfer_dequeue_pointer_low : ℕ
  pub transfer_dequeue_pointer_high : ℕ
  pub average_trb_length : ℕ

-- `XHCISlotContext`, the fields that are written.
pub record SlotContext : Type 0 where
  pub speed : ℕ
  pub multi_tt : ℕ
  pub context_entry_count : ℕ
  pub root_hub_port : ℕ
  pub interrupter_target : ℕ
  pub device_address : ℕ

-- `XHCIDevice` and `XHCIInputContext`
pub record DeviceContext : Type 0 where
  pub slot : SlotContext
  pub endpoints : ℕ → EndpointContext

pub record InputContext : Type 0 where
  pub add_context_flags : ℕ
  pub device_context : DeviceContext

-- `SlotXHCI`, with the context that the controller reads and writes.
pub record SlotXhci : Type 0 where
  pub slot_index : ℕ
  pub port_index : ℕ
  pub input_context : InputContext
  pub device_context : DeviceContext
  pub control_ring : TrbRing
  pub endpoint_rings : ℕ → TrbRing

-- `createInputContext`, on the page that it gets.
unfoldable pub create_input_context : InputContext → (port_index port_status : ℕ) → InputContext
create_input_context page port_index port_status =
    let first = record (page.device_context.endpoints 0) {
      endpoint_type = 4;
      max_packet_size = 8;
      max_burst_size = 0;
      interval = 0;
      max_primary_streams = 0;
      multiplier = 0;
      error_count = 3;
      average_trb_length = 1024;
    } in
    let slot = record page.device_context.slot {
      root_hub_port = port_index % 2 ^ 8;
      interrupter_target = 0;
      multi_tt = 0;
      device_address = 0;
      context_entry_count = 1;
      speed = port_status / 2 ^ 10 % 4;
    } in
    record {
      add_context_flags = 3;
      device_context = record {
        slot = slot;
        endpoints = update page.device_context.endpoints 0 first;
      };
    }

-- `xhciSetupEndpointsStart`
unfoldable pub xhci_setup_endpoints_start : SlotXhci → SlotXhci
xhci_setup_endpoints_start slot = record slot {
  device_context = slot.input_context.device_context;
  input_context = record slot.input_context { add_context_flags = 1 };
}

-- The context of an endpoint in `xhciConfigureEndpoint`
unfoldable pub endpoint_context :
    (address attributes max_packet_size interval physical : ℕ) → EndpointContext → EndpointContext
endpoint_context address attributes max_packet_size interval physical old = record old {
  max_primary_streams = 0;
  interval = interval;
  error_count = 3;
  endpoint_type = bit_or (address / 2 ^ 7 * 4) (attributes % 4);
  max_packet_size = max_packet_size;
  transfer_dequeue_pointer_low = bit_or physical 1;
  transfer_dequeue_pointer_high = 0;
  average_trb_length = 2048;
}

-- The slot in `xhciConfigureEndpoint`, for the endpoint with an index.
unfoldable pub with_endpoint :
    (blocks : ℕ → XhciTrb) → (index physical : ℕ) → EndpointContext → SlotXhci → SlotXhci
unfolding setup_trb_ring
with_endpoint blocks index physical context slot =
    let input = slot.input_context in
    let old = input.device_context.slot in
    let count = if ltb old.context_entry_count index then index else old.context_entry_count in
    record slot {
      endpoint_rings = update slot.endpoint_rings index (setup_trb_ring blocks physical 255);
      input_context = record {
        add_context_flags = set_bit input.add_context_flags (index + 1);
        device_context = record {
          slot = record old { context_entry_count = count % 2 ^ 5 };
          endpoints = update input.device_context.endpoints index context;
        };
      };
    }

-- `xhciConfigureEndpoint`, with what the blocks of the ring that it makes hold and their physical address: what
-- it returns, and the slot. The endpoint is the list of its bytes. `none` also where the index, 255 for
-- the number 0, lies behind the 32 endpoints of the contexts.
unfoldable pub xhci_configure_endpoint :
    (blocks : ℕ → XhciTrb) → (physical : ℕ) → (endpoint : List ℕ) → SlotXhci → Option (ℕ × SlotXhci)
unfolding endpoint_context with_endpoint
xhci_configure_endpoint blocks physical endpoint slot = do
  address ← read8 endpoint 2
  attributes ← read8 endpoint 3
  max_packet_size ← read16 endpoint 4
  interval ← read8 endpoint 6
  let index = get_endpoint_index address
  let old = slot.input_context.device_context.endpoints index
  let context = endpoint_context address attributes max_packet_size interval physical old
  let configured = with_endpoint blocks index physical context slot
  if ltb index 32 then some (2 ^ (interval % 32) / 8, configured) else none

-- `XHCINormalTRB` of a transfer: type 1, with interrupts on completion and on a short packet.
abbrev pub normal_trb : (buffer transfer_size : ℕ) → XhciTrb
normal_trb buffer transfer_size = record {
  data_low = buffer;
  data_high = 0;
  status = transfer_size % 2 ^ 17;
  control = command_type 1 + 2 ^ 5 + 2 ^ 2;
}

-- `XHCISetupStageTRB`: type 2, with immediate data.
abbrev pub setup_trb : (request_type request value index length : ℕ) → XhciTrb
setup_trb request_type request value index length = record {
  data_low = request_type % 2 ^ 8 + request % 2 ^ 8 * 2 ^ 8 + value % 2 ^ 16 * 2 ^ 16;
  data_high = index % 2 ^ 16 + length % 2 ^ 16 * 2 ^ 16;
  status = 8;
  control = 3 * 2 ^ 16 + command_type 2 + 2 ^ 6;
}

-- `XHCIDataStageTRB` for input: type 3.
abbrev pub data_trb : (buffer transfer_size : ℕ) → XhciTrb
data_trb buffer transfer_size = record {
  data_low = buffer;
  data_high = 0;
  status = transfer_size % 2 ^ 17;
  control = 2 ^ 16 + command_type 3;
}

-- `XHCIStatusStageTRB`: type 4, with an interrupt on completion.
abbrev pub status_trb : (direction : ℕ) → XhciTrb
status_trb direction = record {
  data_low = 0;
  data_high = 0;
  status = 0;
  control = direction % 2 * 2 ^ 16 + command_type 4 + 2 ^ 5;
}

-- What is done behind the blocks: the doorbell of a slot rings, and an event code is awaited.
pub record Rung : Type 0 where
  pub slot_index : ℕ
  pub doorbell : ℕ
  pub awaited : ℕ

-- `doXhciWriteNormal`
unfoldable pub do_xhci_write_normal : (buffer index transfer_size : ℕ) → SlotXhci → Rung × SlotXhci
unfolding enqueue_command
do_xhci_write_normal buffer index transfer_size slot =
    let (code, ring) =
      enqueue_command (normal_trb buffer transfer_size) (slot.endpoint_rings index) in
    (
      record { slot_index = slot.slot_index; doorbell = index + 1; awaited = code },
      record slot { endpoint_rings = update slot.endpoint_rings index ring },
    )

-- `xhciNormal`
unfoldable pub xhci_normal : (buffer index : ℕ) → SlotXhci → Rung × SlotXhci
unfolding do_xhci_write_normal
xhci_normal buffer index slot = do_xhci_write_normal buffer index 4 slot

-- `doXhciCommand`
unfoldable pub do_xhci_command :
    (request_type request value direction : ℕ) → SlotXhci → Rung × SlotXhci
unfolding enqueue_command
do_xhci_command request_type request value direction slot =
    let (first, ring₁) =
      enqueue_command (setup_trb request_type request value 0 0) slot.control_ring in
    let (code, ring₂) = enqueue_command (status_trb direction) ring₁ in
    (
      record { slot_index = slot.slot_index; doorbell = 1; awaited = code },
      record slot { control_ring = ring₂ },
    )

-- `xhciGetDescriptor`
unfoldable pub xhci_get_descriptor : (value index buffer recipient : ℕ) → SlotXhci → Rung × SlotXhci
unfolding enqueue_command
xhci_get_descriptor value index buffer recipient slot =
    let setup = setup_trb (bit_or 0x80 recipient) 6 value index 4096 in
    let (first, ring₁) = enqueue_command setup slot.control_ring in
    let (second, ring₂) = enqueue_command (data_trb buffer 4096) ring₁ in
    let (code, ring₃) = enqueue_command (status_trb 1) ring₂ in
    (
      record { slot_index = slot.slot_index; doorbell = 1; awaited = code },
      record slot { control_ring = ring₃ },
    )

-- `xhciSetupEndpointsEnd`: what is awaited on the ring of the commands, and in the slot.
unfoldable pub xhci_setup_endpoints_end :
    (input_context config_value : ℕ) → TrbRing → SlotXhci → (ℕ × TrbRing) × (Rung × SlotXhci)
unfolding xhci_command do_xhci_command
xhci_setup_endpoints_end input_context config_value commands slot =
    let control = bit_or (command_type 12) (command_slot_id slot.slot_index) in
    (xhci_command input_context 0 0 control commands, do_xhci_command 0 9 config_value 0 slot)

-- `createSlotTRB`, with what the blocks of the ring hold and their physical address.
unfoldable pub create_slot_trb : (blocks : ℕ → XhciTrb) → (physical : ℕ) → SlotXhci → SlotXhci
unfolding setup_trb_ring
create_slot_trb blocks physical slot =
    let device = slot.input_context.device_context in
    let first = record (device.endpoints 0) {
      transfer_dequeue_pointer_low = bit_or physical 1;
      transfer_dequeue_pointer_high = 0;
    } in
    record slot {
      control_ring = setup_trb_ring blocks physical 255;
      input_context = record slot.input_context {
        device_context = record device { endpoints = update device.endpoints 0 first };
      };
    }

-- The part of `resetSlot` behind the reset of the port, with the page and the ring that it gets: the two
-- commands that give the device its address. `none`: the reset failed.
unfoldable pub reset_slot :
    (port_status input_control : ℕ)
    → (blocks : ℕ → XhciTrb) → (physical : ℕ) → (page : InputContext) → TrbRing
    → SlotXhci
    → Option (TrbRing × SlotXhci)
unfolding create_input_context create_slot_trb address_device
reset_slot port_status input_control blocks physical page commands slot =
    let created =
      create_slot_trb blocks physical
        (record slot { input_context = create_input_context page slot.port_index port_status }) in
    let (first, ring₁) = address_device slot.slot_index input_control true commands in
    let (second, ring₂) = address_device slot.slot_index input_control false ring₁ in
    if port_status / 2 % 2 == 1 then some (ring₂, created) else none

-- The loop of `xhciInterrupt`: the events that it fires, each with the index of its block and the code,
-- and the ring. `none`: the fuel ran out.
unfoldable pub interrupt_loop : (fuel : ℕ) → TrbRing → Option (List (ℕ × ℕ) × TrbRing)
unfolding trb_ring_fetch
interrupt_loop zero ring = none
interrupt_loop (suc fuel) ring =
    let (fetched, next) = trb_ring_fetch ring in
    elim fetched [
      | none ↦ some ([], ring)
      | some index ↦ interrupt_loop fuel next >>= λ (events, last).
          some ((index, (ring.trbs index).data_low) ∷ events, last)
    ]

-- `xhciInterrupt`: nothing is done where the interrupt is not pending.
unfoldable pub xhci_interrupt : (fuel management : ℕ) → TrbRing → Option (List (ℕ × ℕ) × TrbRing)
unfolding interrupt_loop
xhci_interrupt fuel management events =
    let done = interrupt_loop fuel events in if management % 2 == 1 then done else some ([], events)
