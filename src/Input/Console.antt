-- ===== src/Input/Console.antt =====
-- The line that is typed, src/userland/ioManager/main.c, and the clock of src/userland/pit/main.c.
use honey_os.Base.{
  ℕ, zero, suc, ◌+◌, ◌-◌, ◌/◌, ◌%◌, ◌^◌, Bool, true, false, not, List, [], ◌∷◌, ◌==◌, if◌then◌else◌,
  update,
}

-- The variables of the input manager; `input_buffer` is the memory from `inputBuffer` on.
pub record InputManager : Type 0 where
  pub focus_service : ℕ
  pub focus_service_key_handler : ℕ
  pub input_buffer : ℕ → ℕ
  pub input_buffer_position : ℕ
  pub print_input : Bool

-- What the handling of a key asks of others, in the order in which it does.
pub data ConsoleAction : Type 0 where
  key_handler : (service handler keycode string_id : ℕ) → ConsoleAction
  key_event : (keycode : ℕ) → ConsoleAction
  new_line_event : (string : List ℕ) → ConsoleAction
  echo : (keycode : ℕ) → ConsoleAction

-- `setForeground`
unfoldable pub set_foreground : ℕ → InputManager → InputManager
set_foreground service io = record io { focus_service = service; focus_service_key_handler = 0 }

-- The string in a buffer, of at most `n` characters from `i` on.
abbrev pub buffer_text : (n i : ℕ) → (ℕ → ℕ) → List ℕ
buffer_text zero i buffer = []
buffer_text (suc n) i buffer =
    let rest = buffer_text n (i + 1) buffer in if buffer i == 0 then [] else buffer i ∷ rest

-- The start of a line: an empty buffer.
unfoldable pub start_line : InputManager → InputManager
start_line io = record io { input_buffer_position = 0; input_buffer = update io.input_buffer 0 0 }

-- `onNewLine`: the string that goes with the event, and the manager.
unfoldable pub on_new_line : InputManager → List ℕ × InputManager
unfolding start_line
on_new_line io = (buffer_text io.input_buffer_position 0 io.input_buffer, start_line io)

-- The case of a character of `handleKey`.
unfoldable pub type_character : ℕ → InputManager → InputManager
type_character keycode io =
    let next = (io.input_buffer_position + 1) % 2 ^ 32 in
    record io {
      input_buffer =
          update (update io.input_buffer io.input_buffer_position (keycode % 2 ^ 8)) next 0;
      input_buffer_position = next;
    }

-- The case of a backspace, where there is a character.
unfoldable pub erase_character : InputManager → InputManager
erase_character io = record io {
  input_buffer = update io.input_buffer (io.input_buffer_position - 1) 0;
  input_buffer_position = io.input_buffer_position - 1;
}

-- `handleKey`: `handler` is the function `onKey` of the service in the foreground, 0 where it has none.
unfoldable pub handle_key :
    (handler keycode string_id : ℕ) → InputManager → List ConsoleAction × InputManager
unfolding on_new_line type_character erase_character
handle_key handler keycode string_id io =
    let known = io.focus_service_key_handler in
    let io₁ = record io { focus_service_key_handler = if known == 0 then handler else known } in
    let handles = io₁.focus_service_key_handler in
    let called : List ConsoleAction → List ConsoleAction = λ actions.
      if handles == 0
      then key_event keycode ∷ actions
      else key_handler io.focus_service handles keycode string_id ∷ key_event keycode ∷ actions in
    let (line, new_line) = on_new_line io₁ in
    if not io.print_input
    then (called [], io₁)
    else if keycode == 8
    then if io.input_buffer_position == 0
      then (called [], io₁)
      else (called (echo keycode ∷ []), erase_character io₁)
    else if keycode == 10
    then (called (new_line_event line ∷ echo keycode ∷ []), new_line)
    else (called (echo keycode ∷ []), type_character keycode io₁)

-- `getsImplementation` up to its wait, and behind it.
unfoldable pub gets_start : InputManager → InputManager
unfolding start_line
gets_start io = start_line (record io { print_input = true })

unfoldable pub gets_end : InputManager → InputManager
gets_end io = record io { print_input = false }

-- `interruptHandler` of the clock: the time, which is also the value and code of its event.
unfoldable pub interrupt_handler : (system_time : ℕ) → ℕ
interrupt_handler system_time = (system_time + 1) % 2 ^ 32

-- `doSleep`: the time that is awaited.
unfoldable pub sleep_target : (system_time millis : ℕ) → ℕ
sleep_target system_time millis = (system_time + (millis + (2 ^ 32 - 1)) % 2 ^ 32 / 10 + 1) % 2 ^ 32
