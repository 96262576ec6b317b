-- ===== src/Usb/Ring.antt =====
-- The rings of transfer blocks, src/userland/usb/xhci/trbRing.c, and the control words of the
-- commands in src/userland/usb/xhci/commands.c.
pub mod Laps
use honey_os.Base.{
  ℕ, zero, suc, ◌+◌, ◌-◌, ◌*◌, ◌/◌, ◌%◌, ◌^◌, Bool, true, false, not, Option, none, some, List, [],
  ◌∷◌, ◌==◌, if◌then◌else◌, update, bit_or,
}

-- `XHCITRB`
pub record XhciTrb : Type 0 where
  pub data_low : ℕ
  pub data_high : ℕ
  pub status : ℕ
  pub control : ℕ

-- `TrbRing`; `physical` is the physical address of the first block.
pub record TrbRing : Type 0 where
  pub trbs : ℕ → XhciTrb
  pub physical : ℕ
  pub size : ℕ
  pub enqueue : ℕ
  pub dequeue : ℕ
  pub cycle : Bool

-- A `bool` as a number.
abbrev pub bool_value : Bool → ℕ
bool_value true = 1
bool_value false = 0

-- `1 ^ control`
abbrev pub toggle : ℕ → ℕ
toggle control = if control % 2 == 0 then control + 1 else control - 1

-- `COMMAND_TYPE`, `COMMAND_SLOT_ID` and `COMMAND_BSR`
abbrev pub command_type : ℕ → ℕ
command_type x = x * 2 ^ 10 % 2 ^ 32

abbrev pub command_slot_id : ℕ → ℕ
command_slot_id x = x * 2 ^ 24 % 2 ^ 32

abbrev pub command_bsr : Bool → ℕ
command_bsr x = bool_value x * 2 ^ 9

-- The end of `enqueueCommand`: behind the last block the link is handed over and the ring starts
-- again with the other cycle bit.
unfoldable pub follow_link : TrbRing → TrbRing
follow_link ring =
    let link = ring.trbs ring.enqueue in
    let linked = record ring {
      trbs = update ring.trbs ring.enqueue (record link { control = toggle link.control });
      cycle = not ring.cycle;
      enqueue = 0;
    } in
    if ring.enqueue == ring.size - 1 then linked else ring

-- `enqueueCommand`: the physical address of the block, and the ring.
unfoldable pub enqueue_command : XhciTrb → TrbRing → ℕ × TrbRing
unfolding follow_link
enqueue_command trb ring =
    let marked = record trb { control = bit_or trb.control (bool_value ring.cycle) } in
    let result = (ring.physical + 16 * ring.enqueue) % 2 ^ 32 in
    let written = record ring {
      trbs = update ring.trbs ring.enqueue marked;
      enqueue = (ring.enqueue + 1) % 2 ^ 32;
    } in
    (result, follow_link written)

-- `trbRingFetch`: the index of the block that was fetched, `none` for NULL, and the ring.
unfoldable pub trb_ring_fetch : TrbRing → Option ℕ × TrbRing
trb_ring_fetch ring =
    let next = (ring.dequeue + 1) % 2 ^ 32 in
    let wrapped = record ring { dequeue = 0; cycle = not ring.cycle } in
    let fetched = if next == ring.size - 1 then wrapped else record ring { dequeue = next } in
    if (ring.trbs ring.dequeue).control % 2 == bool_value ring.cycle
    then (some ring.dequeue, fetched)
    else (none, ring)

-- `setupTrbRing`, with what the blocks that it gets hold and their address; nothing clears them.
unfoldable pub setup_trb_ring : (blocks : ℕ → XhciTrb) → (physical size : ℕ) → TrbRing
setup_trb_ring blocks physical size =
    let link = record (blocks (size - 1)) {
      data_low = physical;
      data_high = 0;
      control = bit_or 2 (command_type 6);
    } in
    record {
      trbs = update blocks (size - 1) link;
      physical = physical;
      size = size;
      enqueue = 0;
      dequeue = 0;
      cycle = true;
    }

-- `xhciCommand` up to the doorbell: the code that is awaited, and the ring.
unfoldable pub xhci_command : (data_low data_high status control : ℕ) → TrbRing → ℕ × TrbRing
unfolding enqueue_command
xhci_command data_low data_high status control ring =
    enqueue_command
      record { data_low = data_low; data_high = data_high; status = status; control = control } ring

-- `addressDevice`
unfoldable pub address_device : (slot_index input_control : ℕ) → Bool → TrbRing → ℕ × TrbRing
unfolding xhci_command
address_device slot_index input_control bsr ring =
    let control =
      bit_or (bit_or (command_type 11) (command_slot_id slot_index)) (command_bsr bsr) in
    xhci_command input_control 0 0 control ring

-- `configureEndpoint`
unfoldable pub configure_endpoint : (input_context slot_number : ℕ) → Bool → TrbRing → ℕ × TrbRing
unfolding xhci_command
configure_endpoint input_context slot_number deconfigure ring =
    let control =
      bit_or (bit_or (command_type 12) (command_slot_id slot_number)) (command_bsr deconfigure) in
    xhci_command input_context 0 0 control ring

-- `evaluateContext`
unfoldable pub evaluate_context : (input_context slot_number : ℕ) → TrbRing → ℕ × TrbRing
unfolding xhci_command
evaluate_context input_context slot_number ring =
    xhci_command input_context 0 0 (bit_or (command_type 13) (command_slot_id slot_number)) ring

-- `requestSlotIndex`, up to the answer.
unfoldable pub request_slot_index : TrbRing → ℕ × TrbRing
unfolding xhci_command
request_slot_index ring = xhci_command 0 0 0 (command_type 9) ring
