-- ===== src/Input/Tests.antt =====
-- Keys, packets, lines and the screen on concrete inputs.
use honey_os.Base.{◌≡◌, refl, some, [], ◌∷◌, arith, update}
use honey_os.Input.Keyboard.{Keyboard, Layout, key_down, press_key, send_press}
use honey_os.Input.Keyboard.Press.{IsLetGo, key_down-IsLetGo}
use honey_os.Input.Console.{sleep_target}
use honey_os.Input.Screen.{Screen, write}

-- The left shift key is held.
abbrev layout : Layout
layout = record { repeating_thread_id = 0; repeating_key = 1; pressed_keys = 2 }

abbrev shifted : Keyboard
shifted = update (update (λ i. 0) 0 3) 2 225

-- The key of letter a sends A.
a-shifted : send_press layout 4 shifted ≡ some (65 ∷ [])
unfolding send_press update
a-shifted = refl

-- The entry behind the key of the dot is sent in its place, since number 54 is missing.
dot-slash : send_press layout 55 (λ i. 0) ≡ some (47 ∷ [])
unfolding send_press
dot-slash = refl

key_down-IsLetGo_example : IsLetGo layout 4 shifted (press_key layout 4 shifted).1
unfolding key_down update
key_down-IsLetGo_example =
    key_down-IsLetGo layout 4 4 (65 ∷ []) shifted (press_key layout 4 shifted).1
      record { thread = omega arith; key = omega arith; distinct = λ e. ground arith }
      (λ e. ground arith) (λ j l h. ground arith) (omega arith) refl

sleep_target-one : sleep_target 7 10 ≡ 8
unfolding sleep_target
sleep_target-one = refl

-- No time at all is more than 497 days.
sleep_target-zero : sleep_target 7 0 ≡ 429_496_737
unfolding sleep_target
sleep_target-zero = refl

abbrev screen : Screen
screen = record { video = λ i. 0; offset = 1999; cursor = 0 }

-- A character in the last cell leaves the cursor behind the screen.
write-behind : (write 97 screen).offset ≡ 2000
unfolding write
write-behind = refl
