-- ===== src/Terminal/Active.antt =====
-- Output to the terminal of the executing process while another is shown: set_screen_pos_term_exec,
-- enter_term_exec, scroll_up_term_exec, putc_terminal_active, puts_terminal_active and
-- printf_terminal_active of student-distrib/lib.c, and terminal_write of terminal.c.
use ece391_os.Common.{
  ℕ, zero, suc, ◌+◌, ◌-◌, ◌*◌, ltb, ◌==◌, ◌||◌, if◌then◌else◌, Option, none, some, List, get_or,
  ◌>>=◌, ℤ, pos,
}
use ece391_os.Memory.{Mem, upd}
use ece391_os.Print.{puts_from, printf}
use ece391_os.Screen.{Screen, attribute, cell, num_cols, num_rows, scroll_video, putc}
use ece391_os.Terminal.{Term, Terminals, put}

-- set_screen_pos_term_exec(x, y), on terminal[cur_active_terminal], which is all that it reads and
-- writes, with the calls of enter_term_exec() and scroll_up_term_exec() in it. They nest like those
-- of set_screen_pos, so `fuel` is for the depth.
unfoldable pub set_screen_pos_term_exec : ℕ → ℕ → ℕ → Term → Option Term
set_screen_pos_term_exec zero x y t = none
set_screen_pos_term_exec (suc fuel) x y t =
    let entered = set_screen_pos_term_exec fuel 0 (t.pos_y + 1) t in
    let t1 = record t { pos_x = x } in
    let scrolled =
      set_screen_pos_term_exec fuel 0 t.pos_y (record t1 { buffer = scroll_video t.buffer }) in
    if ltb x num_cols
    then (if ltb y num_rows
        then some (record t1 { pos_y = y })
        else (do t2 ← scrolled; some (record t2 { pos_y = num_rows - 1 })))
    else entered

unfoldable pub enter_term_exec : ℕ → Term → Option Term
unfolding set_screen_pos_term_exec
enter_term_exec fuel t = set_screen_pos_term_exec fuel 0 (t.pos_y + 1) t

-- The byte offset of a terminal's cursor in its buffer.
abbrev pub term_cell : Term → ℕ
term_cell t = 2 * (num_cols * t.pos_y + t.pos_x)

-- The attribute goes to video memory, at the cursor of the screen that is shown.
unfoldable pub color_shown : Screen → Screen
unfolding upd
color_shown scr = record scr {
  video = upd scr.video (cell scr + 1) (get_or attribute scr.cur_term 0);
}

-- The character goes to the buffer of the executing terminal.
unfoldable pub put_term_cell : ℕ → Term → Term
unfolding upd
put_term_cell c t = record t { buffer = upd t.buffer (term_cell t) c }

unfoldable pub putc_terminal_active : ℕ → ℕ → Terminals → Option Terminals
unfolding enter_term_exec put_term_cell color_shown put
putc_terminal_active fuel c s =
    let t = s.term s.cur_active in
    if c == b'\n' || c == b'\r'
    then (do t' ← enter_term_exec fuel t; some (record s { term = put s.cur_active t' s.term }))
    else (do
      t' ← set_screen_pos_term_exec fuel (t.pos_x + 1) t.pos_y (put_term_cell c t)
      some (record s { term = put s.cur_active t' s.term; screen = color_shown s.screen }))

-- puts_terminal_active(s), for strings of less than `chars` characters.
unfoldable pub puts_terminal_active : ℕ → ℕ → Mem → ℕ → Terminals → Option (ℕ × Terminals)
unfolding putc_terminal_active
puts_terminal_active chars fuel m str s = puts_from (putc_terminal_active fuel) chars m str 0 s

-- putc, on the screen that is shown.
unfoldable pub putc_shown : ℕ → ℕ → Terminals → Option Terminals
unfolding putc
putc_shown fuel c s = do scr ← putc fuel c s.screen; some (record s { screen = scr })

-- printf_terminal_active(format, args).
unfoldable pub printf_terminal_active :
    ℕ → ℕ → ℕ → ℕ → ℕ → List ℕ → Mem → Terminals → Option (ℕ × Mem × Terminals)
unfolding putc_terminal_active printf
printf_terminal_active fuel size chars conv_buf format args m s =
    printf (putc_terminal_active fuel) size chars conv_buf format args m s

-- terminal_write(fd, buf, num_bytes): `num_bytes` is not used. `args` are the words that are on the
-- stack behind the format, which is the buffer itself. `size` bounds its characters.
unfoldable pub terminal_write :
    ℕ → ℕ → ℕ → ℕ → List ℕ → ℤ → ℕ → ℤ → Mem → Terminals → Option (ℤ × Mem × Terminals)
unfolding printf printf_terminal_active putc_shown
terminal_write fuel size chars conv_buf args fd buf num_bytes m s = do
  out ←
      (if s.screen.cur_term == s.cur_active
        then printf (putc_shown fuel) size chars conv_buf buf args m s
        else printf_terminal_active fuel size chars conv_buf buf args m s)
  some (pos out.0, out.1, out.2)
