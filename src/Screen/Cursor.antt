-- ===== src/Screen/Cursor.antt =====
-- Where set_screen_pos of lib.c leaves the cursor, and that its calls end.
use ece391_os.Common.{
  ℕ, zero, suc, ◌+◌, ◌≤◌, ◌<◌, ◌≡◌, refl, arith, ltb, if◌then◌else◌, none, some, lt→ltb, le→ltb,
}
use ece391_os.Screen.{Screen, num_cols, num_rows, scroll_video, set_cursor_pos, set_screen_pos}

-- The cursor lies on the screen.
pub record OnScreen (s : Screen) : Type 0 where
  pub column : s.screen_x < num_cols
  pub row : s.screen_y < num_rows

-- The screen with the cursor at (x, y), and the register told so.
abbrev pub moved_to : ℕ → ℕ → Screen → Screen
moved_to x y s = set_cursor_pos (record s { screen_x = x; screen_y = y })

-- The same, scrolled by a row.
abbrev pub scrolled_at : ℕ → ℕ → Screen → Screen
scrolled_at x y s = moved_to x y (record s { video = scroll_video s.video })

-- What set_screen_pos(x, y) means: a column off the screen moves to the next line, a row off the
-- screen scrolls and goes to the start of the last line.
unfoldable pub placed : ℕ → ℕ → Screen → Screen
placed x y s =
    if ltb x num_cols
    then (if ltb y num_rows then moved_to x y s else scrolled_at 0 24 s)
    else (if ltb (s.screen_y + 1) num_rows
        then moved_to 0 (s.screen_y + 1) s
        else scrolled_at 0 24 s)

set_cursor_pos_twice : (x y : ℕ) (s : Screen) → set_cursor_pos (moved_to x y s) ≡ moved_to x y s
unfolding set_cursor_pos
set_cursor_pos_twice x y s = refl

-- With the cursor on the screen, set_screen_pos nests at most three calls deep and returns; the
-- screen is then the one that `placed` describes, on every branch.
pub set_screen_pos-placed :
    (fuel x y : ℕ) (s : Screen)
    → OnScreen s
    → 3 ≤ fuel
    → set_screen_pos fuel x y s ≡ some (placed x y s)
unfolding set_screen_pos placed
set_screen_pos-placed zero x y s o h = absurd (omega arith)
set_screen_pos-placed (suc zero) x y s o h = absurd (omega arith)
set_screen_pos-placed (suc (suc zero)) x y s o h = absurd (omega arith)
set_screen_pos-placed (suc (suc (suc f))) x y s o h = ground arith

pub placed-OnScreen : (x y : ℕ) (s : Screen) → OnScreen (placed x y s)
unfolding placed set_cursor_pos
placed-OnScreen x y s = ground arith

-- The bound on the rows matters: once the cursor's row is off the screen, a call with a row off the
-- screen calls itself for ever.
pub set_screen_pos_loops :
    (fuel x y : ℕ) (s : Screen)
    → num_rows ≤ s.screen_y
    → num_rows ≤ y
    → x < num_cols
    → set_screen_pos fuel x y s ≡ none
unfolding set_screen_pos
set_screen_pos_loops zero x y s h k l = refl
set_screen_pos_loops (suc fuel) x y s h k l = rw (
  lt→ltb x 80 l,
  le→ltb y 25 k,
  set_screen_pos_loops fuel 0 s.screen_y (record s { screen_x = x; video = scroll_video s.video }) h
      h (omega arith),
)
