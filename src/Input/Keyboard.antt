-- ===== src/Input/Keyboard.antt =====
-- Keys that are pressed and released: src/userland/keyboard/main.c, and the scan codes that
-- src/userland/ps2kb/main.c makes them from.
pub mod Press
use honey_os.Base.{
  ℕ, zero, suc, ◌+◌, ◌-◌, ◌*◌, ◌/◌, ◌%◌, ◌^◌, Bool, true, false, not, ◌&&◌, ◌||◌, Option, none,
  some, List, [], ◌∷◌, ◌++◌, map, leb, ◌==◌, if◌then◌else◌, update, get_elem?, get_or, length,
  ◌>>=◌,
}
use honey_os.StringMap.{char_value}
use honey_os.Input.Keys.{KeyInfo, key_infos}

-- The memory of the keyboard service, in words, and where the linker puts its variables. The loops
-- go over `MAX_PRESSED` words from `pressedKeys` on, which has one element: the words behind it may be
-- other variables.
abbrev pub Keyboard : Type 0
Keyboard = ℕ → ℕ

pub record Layout : Type 0 where
  pub repeating_thread_id : ℕ
  pub repeating_key : ℕ
  pub pressed_keys : ℕ

-- `MAX_PRESSED`
abbrev pub max_pressed : ℕ
max_pressed = 10

-- The loop that takes a key from the first place where it is, `n` places from `i` on.
unfoldable pub release_from : (n i keycode : ℕ) → (ℕ → ℕ) → ℕ → ℕ
release_from zero i keycode keys = keys
release_from (suc n) i keycode keys =
    let rest = release_from n (i + 1) keycode keys in
    if keys i == keycode then update keys i 0 else rest

-- The loop that puts a key into the first free place.
unfoldable pub press_from : (n i keycode : ℕ) → (ℕ → ℕ) → ℕ → ℕ
press_from zero i keycode keys = keys
press_from (suc n) i keycode keys =
    let rest = press_from n (i + 1) keycode keys in
    if keys i == 0 then update keys i keycode else rest

-- `keyUp`
unfoldable pub key_up : Layout → ℕ → Keyboard → Keyboard
unfolding release_from update
key_up layout keycode keyboard =
    let id = keyboard layout.repeating_thread_id in
    let cancelled = update keyboard layout.repeating_thread_id ((id + 1) % 2 ^ 32) in
    release_from max_pressed layout.pressed_keys keycode
      (if keycode == keyboard layout.repeating_key then cancelled else keyboard)

-- Whether a key is one of the modifiers of a list, which ends with a zero.
unfoldable pub is_modifier : ℕ → List ℕ → Bool
is_modifier key [] = false
is_modifier key (modifier ∷ modifiers) =
    let rest = is_modifier key modifiers in
    if modifier == 0 then false else if key == modifier then true else rest

-- Whether one of the keys that are pressed, `n` places from `i` on, is a modifier.
unfoldable pub is_modified : (n i : ℕ) → List ℕ → (ℕ → ℕ) → Bool
unfolding is_modifier
is_modified zero i modifiers keys = false
is_modified (suc n) i modifiers keys =
    let rest = is_modified n (i + 1) modifiers keys in
    if keys i == 0 then rest else is_modifier (keys i) modifiers || rest

-- `sendPress`: the numbers that `keyCallback` is called with. `none`: a string that is NULL is read.
unfoldable pub send_press : Layout → ℕ → Keyboard → Option (List ℕ)
unfolding is_modified
send_press layout keycode keyboard = elim (get_elem? key_infos keycode) [
  | none ↦ some []
  | some info ↦ do
    characters ←
        (if is_modified max_pressed layout.pressed_keys info.modifier_keys keyboard
          then info.modified
          else info.normal)
    some (map char_value characters)
]

-- The part of `keyDown` behind `sendPress`: the identity of the thread that repeats the key, 0 where
-- none is forked, and the memory.
unfoldable pub press_key : Layout → ℕ → Keyboard → ℕ × Keyboard
unfolding press_from update
press_key layout keycode keyboard =
    let repeating = update keyboard layout.repeating_key keycode in
    let pressed = press_from max_pressed layout.pressed_keys keycode repeating in
    let id = (pressed layout.repeating_thread_id + 1) % 2 ^ 32 in
    if leb (length key_infos) keycode
    then (0, pressed)
    else (id, update pressed layout.repeating_thread_id id)

-- `keyDown`: what was sent, the identity of the thread, and the memory.
unfoldable pub key_down : Layout → ℕ → Keyboard → Option (List ℕ × ℕ × Keyboard)
unfolding send_press press_key
key_down layout keycode keyboard = do
  sent ← send_press layout keycode keyboard
  let (id, after) = press_key layout keycode keyboard
  some (sent, id, after)

-- A round of the loop of `keyRepeat`: what it sends, and whether it goes on.
unfoldable pub repeat_round : Layout → (keycode thread_id : ℕ) → Keyboard → Option (List ℕ × Bool)
unfolding send_press
repeat_round layout keycode thread_id keyboard =
    let goes_on = send_press layout keycode keyboard >>= λ sent. some (sent, true) in
    if thread_id == keyboard layout.repeating_thread_id then goes_on else some ([], false)

-- `keycodes` of src/userland/ps2kb/main.c; the places behind those that are written hold 0.
abbrev pub keycodes : List ℕ
keycodes =
    0 ∷ 27 ∷ 30 ∷ 31 ∷ 32 ∷ 33 ∷ 34 ∷ 35 ∷ 36 ∷ 37 ∷ 38 ∷ 39 ∷ 45 ∷ 46 ∷ 42 ∷ 43 ∷ 20 ∷ 26 ∷ 8 ∷ 21
    ∷ 23 ∷ 28 ∷ 24 ∷ 12 ∷ 18 ∷ 19 ∷ 47 ∷ 48 ∷ 40 ∷ 0 ∷ 4 ∷ 22 ∷ 7 ∷ 9 ∷ 10 ∷ 11 ∷ 13 ∷ 14 ∷ 15 ∷ 51
    ∷ 52 ∷ 0 ∷ 225 ∷ 49 ∷ 29 ∷ 27 ∷ 6 ∷ 25 ∷ 5 ∷ 17 ∷ 16 ∷ 0 ∷ 55 ∷ 56 ∷ 0 ∷ 0 ∷ 0 ∷ 44 ∷ 0 ∷ 0 ∷ 0
    ∷ 0 ∷ 0 ∷ 0 ∷ 0 ∷ 0 ∷ 0 ∷ 0 ∷ 0 ∷ 0 ∷ 0 ∷ 0 ∷ 0 ∷ 0 ∷ 45 ∷ 0 ∷ 0 ∷ 0 ∷ 0 ∷ 0 ∷ 0 ∷ 0 ∷ 0 ∷ 0 ∷ 0
    ∷ 0 ∷ 0 ∷ 0 ∷ 0 ∷ 0 ∷ []

-- What a scan code asks of the keyboard service.
pub data KeyAction : Type 0 where
  nothing : KeyAction
  up : ℕ → KeyAction
  down : ℕ → KeyAction

-- `onKey`; `second` is the second byte, which is read behind 0xE0 only, and not used.
unfoldable pub on_key : (scancode second : ℕ) → KeyAction
on_key scancode second =
    let keycode = get_or keycodes (scancode % 128) 0 in
    if scancode == 0xE0
    then nothing
    else if keycode == 0
    then nothing
    else if leb 128 scancode
    then up keycode
    else down keycode
