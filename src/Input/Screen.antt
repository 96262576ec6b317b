-- ===== src/Input/Screen.antt =====
-- The text screen, src/userland/vga/main.c.
use honey_os.Base.{
  ℕ, zero, suc, ◌+◌, ◌-◌, ◌*◌, ◌/◌, ◌%◌, ◌^◌, List, [], ◌∷◌, leb, ltb, ◌==◌, if◌then◌else◌, update,
  bit_or,
}

-- `videoSource`, `offset`, and the offset that the cursor was set to.
pub record Screen : Type 0 where
  pub video : ℕ → ℕ
  pub offset : ℕ
  pub cursor : ℕ

abbrev pub width : ℕ
width = 80

abbrev pub height : ℕ
height = 25

-- `COLOR(white, black)`
abbrev pub white_on_black : ℕ
white_on_black = 15

-- `setCursorOffset`, whose parameter has 16 bits.
unfoldable pub set_cursor_offset : Screen → Screen
set_cursor_offset screen = record screen { cursor = screen.offset % 2 ^ 16 }

-- A `char` that is joined with the upper byte of a cell: one from 128 on is negative.
abbrev pub cell : (color character : ℕ) → ℕ
cell color character =
    if ltb character 128 then bit_or (color * 2 ^ 8) character else 2 ^ 16 - (256 - character)

-- `writeChar`
unfoldable pub write_char : (character color_code : ℕ) → Screen → Screen
unfolding set_cursor_offset
write_char character color_code screen = set_cursor_offset (record screen {
  video = update screen.video screen.offset (cell color_code character);
  offset = (screen.offset + 1) % 2 ^ 32;
})

-- The loops of `scrollUp`: `n` cells of a row, `n` rows, and the `n` cells of the last row.
unfoldable pub copy_row : (n x y : ℕ) → (ℕ → ℕ) → ℕ → ℕ
copy_row zero x y video = video
copy_row (suc n) x y video =
    copy_row n (x + 1) y (update video (x + (y - 1) * width) (video (x + y * width)))

unfoldable pub copy_rows : (n y : ℕ) → (ℕ → ℕ) → ℕ → ℕ
unfolding copy_row
copy_rows zero y video = video
copy_rows (suc n) y video = copy_rows n (y + 1) (copy_row width 0 y video)

unfoldable pub clear_row : (n x : ℕ) → (ℕ → ℕ) → ℕ → ℕ
clear_row zero x video = video
clear_row (suc n) x video = clear_row n (x + 1) (update video (x + (height - 1) * width) 0)

-- `scrollUp`
unfoldable pub scroll_up : Screen → Screen
unfolding copy_rows clear_row
scroll_up screen = record screen {
  video = clear_row width 0 (copy_rows (height - 1) 1 screen.video);
}

-- `write`
unfoldable pub write : ℕ → Screen → Screen
unfolding write_char scroll_up set_cursor_offset
write c screen =
    let row_start = screen.offset / width * width in
    let next_row = (screen.offset / width + 1) * width % 2 ^ 32 in
    let returned = record screen { offset = row_start } in
    let below = record screen { offset = next_row } in
    let scrolled = scroll_up (record screen { offset = next_row - width }) in
    let last = (screen.offset + (2 ^ 32 - 1)) % 2 ^ 32 in
    let erased = record screen {
      offset = last;
      video = update screen.video last (cell white_on_black 32);
    } in
    if c == 13
    then set_cursor_offset returned
    else if c == 10
    then set_cursor_offset (if leb height (next_row / width) then scrolled else below)
    else if c == 8
    then set_cursor_offset erased
    else write_char c white_on_black screen

-- The loop of `writeBulk`.
unfoldable pub write_bulk : List ℕ → Screen → Screen
unfolding write
write_bulk [] screen = screen
write_bulk (c ∷ string) screen = write_bulk string (write c screen)
