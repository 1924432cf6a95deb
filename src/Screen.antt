-- ===== src/Screen.antt =====
-- The text screen of student-distrib/lib.c: the cursor, the 80 by 25 cells of video memory, and the
-- routines that write to the screen that is shown (clear, blue_screen, set_screen_pos, enter,
-- backspace, scroll_up, putc, puts).
-- `video` is the memory from VIDEO on: the character of cell n at 2 n, its attribute at 2 n + 1.
-- set_screen_pos, enter, scroll_up and set_screen_x call one another, so they take fuel for the
-- depth of the calls; `none` means that it ran out.
pub mod Scroll
pub mod Cursor
pub mod Output
pub mod Returns
pub mod Bounds
use ece391_os.Common.{
  ℕ, zero, suc, ◌+◌, ◌-◌, ◌*◌, ◌%◌, ◌^◌, ltb, ◌==◌, ◌||◌, if◌then◌else◌, Option, none, some, List,
  [], ◌∷◌, get_or, bit_or, bit_and, true, false,
}
use ece391_os.Memory.{Mem, upd, memset_word}
use ece391_os.Print.{puts_from}

abbrev pub num_cols : ℕ
num_cols = 80

abbrev pub num_rows : ℕ
num_rows = 25

-- ATTRIB_TERM1, ATTRIB_TERM2, ATTRIB_TERM3: the colour of each terminal.
abbrev pub attribute : List ℕ
attribute = 0x07 ∷ 0x0A ∷ 0x0C ∷ []

-- The statics `screen_x` and `screen_y`, the video memory, what the cursor position register was
-- last sent (the two words that go to port 0x3D4), and the terminal that is shown.
pub record Screen : Type 0 where
  pub screen_x : ℕ
  pub screen_y : ℕ
  pub video : Mem
  pub cursor : List ℕ
  pub cur_term : ℕ

-- `uint16_t position`.
unfoldable pub set_cursor_pos : Screen → Screen
set_cursor_pos s =
    let position = (num_cols * s.screen_y + s.screen_x) % 2 ^ 16 in
    record s {
      cursor =
          bit_or 0x000E (bit_and position 0xFF00)
          ∷ bit_or 0x000F (bit_and (position * 2 ^ 8) 0xFF00)
          ∷ [];
    }

unfoldable pub clear : Screen → Screen
clear s = record s {
  video =
      memset_word (num_rows * num_cols) s.video 0
        (bit_or (get_or attribute s.cur_term 0 * 2 ^ 8) b' ');
}

-- The loop of blue_screen, with the rounds that are left.
blue_from : ℕ → Mem → ℕ → Mem
unfolding upd
blue_from zero v i = v
blue_from (suc r) v i = blue_from r (upd v (2 * i + 1) 0x16) (i + 1)

pub blue_screen : Screen → Screen
blue_screen s = record s { video = blue_from (num_rows * num_cols) s.video 0 }

-- One row moves up: the inner loop of scroll_up at row `y`, from column `x` on.
move_row : ℕ → Mem → ℕ → ℕ → Mem
unfolding upd
move_row zero v y x = v
move_row (suc r) v y x =
    let old_line = num_cols * (y + 1) + x in
    let new_line = num_cols * y + x in
    move_row r (upd v (2 * new_line) (v (2 * old_line))) y (x + 1)

move_rows : ℕ → Mem → ℕ → Mem
move_rows zero v y = v
move_rows (suc r) v y = move_rows r (move_row num_cols v y 0) (y + 1)

clear_row : ℕ → Mem → ℕ → Mem
unfolding upd
clear_row zero v x = v
clear_row (suc r) v x = clear_row r (upd v (2 * (num_cols * (num_rows - 1) + x)) b' ') (x + 1)

-- What scroll_up, and scroll_up_term_exec alike, do to a video buffer.
pub scroll_video : Mem → Mem
scroll_video v = clear_row num_cols (move_rows (num_rows - 1) v 0) 0

-- set_screen_pos(x, y) with the calls of enter() and scroll_up() in it: enter() is
-- set_screen_pos(0, screen_y + 1), and scroll_up() ends in set_screen_x(0), which is
-- set_screen_pos(0, screen_y).
unfoldable pub set_screen_pos : ℕ → ℕ → ℕ → Screen → Option Screen
unfolding set_cursor_pos
set_screen_pos zero x y s = none
set_screen_pos (suc fuel) x y s =
    let entered = set_screen_pos fuel 0 (s.screen_y + 1) s in
    let s1 = record s { screen_x = x } in
    let scrolled = set_screen_pos fuel 0 s.screen_y (record s1 { video = scroll_video s.video }) in
    if ltb x num_cols
    then (if ltb y num_rows
        then some (set_cursor_pos (record s1 { screen_y = y }))
        else (elim scrolled [
          | none ↦ none
          | some s2 ↦ some (set_cursor_pos (record s2 { screen_y = num_rows - 1 }))
        ]))
    else (elim entered [ none ↦ none | some s2 ↦ some (set_cursor_pos s2) ])

unfoldable pub set_screen_x : ℕ → ℕ → Screen → Option Screen
unfolding set_screen_pos
set_screen_x fuel x s = set_screen_pos fuel x s.screen_y s

unfoldable pub set_screen_y : ℕ → ℕ → Screen → Option Screen
unfolding set_screen_pos
set_screen_y fuel y s = set_screen_pos fuel s.screen_x y s

unfoldable pub enter : ℕ → Screen → Option Screen
unfolding set_screen_pos
enter fuel s = set_screen_pos fuel 0 (s.screen_y + 1) s

pub scroll_up : ℕ → Screen → Option Screen
unfolding set_screen_x
scroll_up fuel s = set_screen_x fuel 0 (record s { video = scroll_video s.video })

-- The byte offset of the cursor's cell.
abbrev pub cell : Screen → ℕ
cell s = 2 * (num_cols * s.screen_y + s.screen_x)

-- A character and the shown terminal's attribute at the cursor.
unfoldable pub put_cell : ℕ → Screen → Screen
unfolding upd
put_cell c s = record s {
  video = upd (upd s.video (cell s) c) (cell s + 1) (get_or attribute s.cur_term 0);
}

unfoldable pub putc : ℕ → ℕ → Screen → Option Screen
unfolding put_cell enter
putc fuel c s =
    if c == b'\n' || c == b'\r'
    then enter fuel s
    else set_screen_pos fuel (s.screen_x + 1) s.screen_y (put_cell c s)

-- `screen_y - 1` is converted to uint32_t.
unfoldable pub backspace : ℕ → Screen → Option Screen
unfolding put_cell set_screen_pos set_screen_x
backspace fuel s =
    elim (if s.screen_x == 0
      then set_screen_pos fuel (num_cols - 1) ((s.screen_y + 2 ^ 32 - 1) % 2 ^ 32) s
      else set_screen_x fuel (s.screen_x - 1) s) [ none ↦ none | some s' ↦ some (put_cell b' ' s') ]

-- puts of the string at `str` in `m`, of less than `chars` characters.
unfoldable pub puts : ℕ → ℕ → Mem → ℕ → Screen → Option (ℕ × Screen)
unfolding putc
puts chars fuel m str s = puts_from (putc fuel) chars m str 0 s
