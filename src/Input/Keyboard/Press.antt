-- ===== src/Input/Keyboard/Press.antt =====
-- A key that is pressed and let go of leaves the pressed keys as they were, and is not repeated.
use mathlib.Core.Option.{some-injective}
use mathlib.Core.Path.{subst}
use honey_os.Base.{
  ℕ, zero, suc, ◌+◌, ◌≤◌, ◌<◌, ◌≡◌, ◌≢◌, ◌⊎◌, ◌∙◌, sym, refl, true, false, some, List, [], ◌==◌,
  leb, length, update, arith, ◌%◌, ◌^◌, >>=-eq-some, Bool-cases, inl, inr,
}
use honey_os.Input.Keys.{key_infos}
use honey_os.Input.Keyboard.{
  Keyboard, Layout, max_pressed, release_from, press_from, key_up, press_key, key_down, send_press,
  repeat_round,
}

-- A word outside the `n` words from `i` on.
abbrev Outside : (n i w : ℕ) → Type 0
Outside n i w = (w < i) ⊎ (i + n ≤ w)

press_from-outside :
    (n i keycode : ℕ) (keys : ℕ → ℕ) (w : ℕ)
    → Outside n i w
    → press_from n i keycode keys w ≡ keys w
unfolding press_from update
press_from-outside zero i keycode keys w h = refl
press_from-outside (suc n) i keycode keys w h =
    let rest = press_from-outside n (i + 1) keycode keys w (omega (arith, h)) in
    let other : (i == w) ≡ false = ground (arith, h) in ground (arith, rest, other)

release_from-outside :
    (n i keycode : ℕ) (keys : ℕ → ℕ) (w : ℕ)
    → Outside n i w
    → release_from n i keycode keys w ≡ keys w
unfolding release_from update
release_from-outside zero i keycode keys w h = refl
release_from-outside (suc n) i keycode keys w h =
    let rest = release_from-outside n (i + 1) keycode keys w (omega (arith, h)) in
    let other : (i == w) ≡ false = ground (arith, h) in ground (arith, rest, other)

-- The loop reads and writes its own words only.
release_from-agrees :
    (n i keycode : ℕ) (keys keys' : ℕ → ℕ) (w : ℕ)
    → ((j : ℕ) → i ≤ j → j < i + n → keys j ≡ keys' j)
    → keys w ≡ keys' w
    → release_from n i keycode keys w ≡ release_from n i keycode keys' w
unfolding release_from update
release_from-agrees zero i keycode keys keys' w h e = e
release_from-agrees (suc n) i keycode keys keys' w h e =
    let rest =
      release_from-agrees n (i + 1) keycode keys keys' w (λ j l k. h j (omega arith) (omega arith))
        e in
    let first = h i (omega arith) (omega arith) in ground (arith, rest, first, e)

release_from-press_from :
    (n i keycode : ℕ) (keys : ℕ → ℕ)
    → keycode ≢ 0
    → ((j : ℕ) → i ≤ j → j < i + n → keys j ≢ keycode)
    → (j : ℕ) → release_from n i keycode (press_from n i keycode keys) j ≡ keys j
unfolding release_from press_from update
release_from-press_from zero i keycode keys h other j = refl
release_from-press_from (suc n) i keycode keys h other j =
    let free = other i (omega arith) (omega arith) in
    let rest =
      release_from-press_from n (i + 1) keycode keys h
        (λ l a k. other l (omega arith) (omega arith)) j in
    ground (arith, rest, press_from-outside n (i + 1) keycode keys i (inl (omega arith)))

-- The other two variables are none of the words that the loops go over, nor the same one.
pub record IsApart (layout : Layout) : Type 0 where
  pub thread : Outside max_pressed layout.pressed_keys layout.repeating_thread_id
  pub key : Outside max_pressed layout.pressed_keys layout.repeating_key
  pub distinct : layout.repeating_thread_id ≢ layout.repeating_key

-- What was pressed before is pressed again, as is all else but the other two variables, and a thread
-- that repeats the key ends.
pub record IsLetGo (layout : Layout) (keycode : ℕ) (keyboard after : Keyboard) : Type 0 where
  pub same :
      (w : ℕ)
      → w ≢ layout.repeating_thread_id
      → w ≢ layout.repeating_key
      → key_up layout keycode after w ≡ keyboard w
  pub ends :
      repeat_round layout keycode (after layout.repeating_thread_id) (key_up layout keycode after)
      ≡ some ([], false)

not_equal : (a b : ℕ) → a ≢ b → (a == b) ≡ false
not_equal a b h = ground arith

-- The memory behind a key that is pressed agrees with the loop's result but for the thread.
record IsPressed (layout : Layout) (keycode : ℕ) (pressed after : Keyboard) : Type 0 where
  repeats : after layout.repeating_key ≡ keycode
  agrees : (w : ℕ) → w ≢ layout.repeating_thread_id → after w ≡ pressed w
  small : after layout.repeating_thread_id < 2 ^ 32

module _ (layout : Layout) (keycode : ℕ) (keyboard : Keyboard) (apart : IsApart layout)
    (nonzero : keycode ≢ 0)
    (other : (j : ℕ)
      → layout.pressed_keys ≤ j
      → j < layout.pressed_keys + max_pressed
      → keyboard j ≢ keycode)
    (small : keyboard layout.repeating_thread_id < 2 ^ 32) where
  abbrev repeating : Keyboard
  repeating = update keyboard layout.repeating_key keycode

  abbrev pressed : Keyboard
  pressed = press_from max_pressed layout.pressed_keys keycode repeating

  repeating-other : (w : ℕ) → w ≢ layout.repeating_key → repeating w ≡ keyboard w
  unfolding update
  repeating-other w h = rw (not_equal layout.repeating_key w (λ e. h (sym e))) refl

  pressed-key : pressed layout.repeating_key ≡ keycode
  unfolding update
  pressed-key =
      press_from-outside max_pressed layout.pressed_keys keycode repeating layout.repeating_key
        apart.key
      ∙ ground arith

  pressed-thread : pressed layout.repeating_thread_id ≡ keyboard layout.repeating_thread_id
  pressed-thread =
      press_from-outside max_pressed layout.pressed_keys keycode repeating
        layout.repeating_thread_id apart.thread
      ∙ repeating-other layout.repeating_thread_id apart.distinct

  press_key-IsPressed : IsPressed layout keycode pressed (press_key layout keycode keyboard).1
  unfolding press_key update
  press_key-IsPressed = elim (Bool-cases (leb (length key_infos) keycode)) [
    | inl e ↦ rw e record {
      repeats = pressed-key;
      agrees = λ w h. refl;
      small = omega (arith, pressed-thread, small);
    }
    | inr e ↦ rw e record {
      repeats = rw (not_equal _ _ apart.distinct) pressed-key;
      agrees = λ w h. rw (not_equal layout.repeating_thread_id w (λ e. h (sym e))) refl;
      small = ground arith;
    }
  ]

  IsPressed-IsLetGo :
      (after : Keyboard)
      → IsPressed layout keycode pressed after
      → IsLetGo layout keycode keyboard after
  unfolding key_up repeat_round update
  IsPressed-IsLetGo after p =
      let id = after layout.repeating_thread_id in
      let own : (keycode == after layout.repeating_key) ≡ true = ground (arith, p.repeats) in
      let next = (id + 1) % 2 ^ 32 in
      let cancelled = update after layout.repeating_thread_id next in
      let agree : (w : ℕ) → w ≢ layout.repeating_thread_id → cancelled w ≡ pressed w =
        λ w h. rw (not_equal layout.repeating_thread_id w (λ e. h (sym e))) (p.agrees w h) in
      let stays : release_from max_pressed layout.pressed_keys keycode cancelled
            layout.repeating_thread_id
          ≡ next =
        release_from-outside max_pressed layout.pressed_keys keycode cancelled
          layout.repeating_thread_id apart.thread
        ∙ ground arith in
      let moved : (id == next) ≡ false = ground (arith, p.small) in
      record {
        same = λ w t k. rw own (
            release_from-agrees max_pressed layout.pressed_keys keycode cancelled pressed w
              (λ j l m. agree j (λ e. omega (arith, apart.thread, e, l, m))) (agree w t)
            ∙ release_from-press_from max_pressed layout.pressed_keys keycode repeating nonzero
                (λ j l m e.
                  other j l m
                    (sym (repeating-other j (λ z. omega (arith, apart.key, z, l, m))) ∙ e))
                w
            ∙ repeating-other w k);
        ends = rw (own, stays, moved) refl;
      }

-- Where the two other variables lie apart from the words that the loops go over, and the key code is not 0 and not among the pressed keys: a key that is pressed and then let go of leaves all words but those variables as they were, and a thread that repeats the key sends nothing more.
pub key_down-IsLetGo :
    (layout : Layout) (keycode id : ℕ) (sent : List ℕ) (keyboard after : Keyboard)
    → IsApart layout
    → keycode ≢ 0
    → ((j : ℕ)
        → layout.pressed_keys ≤ j
        → j < layout.pressed_keys + max_pressed
        → keyboard j ≢ keycode)
    → keyboard layout.repeating_thread_id < 2 ^ 32
    → key_down layout keycode keyboard ≡ some (sent, id, after)
    → IsLetGo layout keycode keyboard after
unfolding key_down
key_down-IsLetGo layout keycode id sent keyboard after apart h other small e =
    let (sent', _, e') = >>=-eq-some (send_press layout keycode keyboard) _ e in
    subst (λ x. IsLetGo layout keycode keyboard x.2) (some-injective _ _ e')
      (IsPressed-IsLetGo layout keycode keyboard apart h other small
        (press_key layout keycode keyboard).1
        (press_key-IsPressed layout keycode keyboard apart h other small))
