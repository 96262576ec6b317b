-- ===== src/Input/Pointer.antt =====
-- Pointers: the packets of src/userland/ps2mouse/main.c and the state of src/userland/mouse/main.c.
use honey_os.Base.{
  ℕ, ◌+◌, ◌-◌, ◌*◌, ◌/◌, ◌%◌, ◌^◌, Bool, ◌||◌, Option, none, some, ltb, ◌==◌, if◌then◌else◌, update,
}

-- `deviceBuffer` and `deviceBufferPositions`
pub record Packets : Type 0 where
  pub buffer : ℕ → ℕ → ℕ
  pub positions : ℕ → ℕ

-- What a whole packet asks of the mouse service: the three buttons, and the movement as two numbers
-- modulo 2^32.
pub record Movement : Type 0 where
  pub button1 : Bool
  pub button2 : Bool
  pub button3 : Bool
  pub dx : ℕ
  pub dy : ℕ

-- `Status`: bit `i` of the first byte.
abbrev pub status_bit : ℕ → ℕ → ℕ
status_bit status i = status / 2 ^ i % 2

-- The bytes of a packet.
unfoldable pub movement : (ℕ → ℕ) → Movement
movement packet =
    let status = packet 0 in
    record {
      button1 = status_bit status 0 == 1;
      button2 = status_bit status 1 == 1;
      button3 = status_bit status 2 == 1;
      dx = (2 ^ 32 + packet 2 - status_bit status 4 * 2 ^ 8) % 2 ^ 32;
      dy = (2 ^ 32 + packet 1 - status_bit status 5 * 2 ^ 8) % 2 ^ 32;
    }

-- `onMove` with the byte that it reads: the movement where the byte is the third of a packet.
unfoldable pub on_move : (device byte : ℕ) → Packets → Option Movement × Packets
unfolding movement
on_move device byte packets =
    let position = packets.positions device in
    let packet = update (packets.buffer device) position byte in
    let buffer = update packets.buffer device packet in
    let next = (position + 1) % 2 ^ 8 in
    let whole : Packets = record {
      buffer = buffer;
      positions = update packets.positions device 0;
    } in
    let started : Packets = record {
      buffer = buffer;
      positions = update packets.positions device next;
    } in
    if next == 3 then (some (movement packet), whole) else (none, started)

-- The mouse service: `x` and `y` modulo 2^32, and how often its event was fired.
pub record Mouse : Type 0 where
  pub x : ℕ
  pub y : ℕ
  pub buttons : ℕ → Bool
  pub updates : ℕ

-- `moveAbsolute`
unfoldable pub move_absolute : (new_x new_y : ℕ) → Mouse → Mouse
move_absolute new_x new_y mouse = record mouse { x = new_x; y = new_y; updates = mouse.updates + 1 }

-- `moveRelative`
unfoldable pub move_relative : (dx dy : ℕ) → Mouse → Mouse
move_relative dx dy mouse = record mouse {
  x = (mouse.x + dx) % 2 ^ 32;
  y = (mouse.y + dy) % 2 ^ 32;
  updates = mouse.updates + 1;
}

-- `updateButton`
unfoldable pub update_button : ℕ → Bool → Mouse → Mouse
update_button button new_state mouse =
    let updated = record mouse {
      buttons = update mouse.buttons (button - 1) new_state;
      updates = mouse.updates + 1;
    } in
    if ltb 5 button || button == 0 then mouse else updated
