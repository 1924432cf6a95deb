-- ===== src/Screen/Returns.antt =====
-- Each routine of lib.c that moves the cursor returns, with the cursor on the screen.
use ece391_os.Common.{
  ℕ, ◌+◌, ◌-◌, ◌%◌, ◌^◌, ◌≤◌, ◌≡◌, arith, ◌==◌, if◌then◌else◌, some, Bool-cases, inl, inr,
}
use ece391_os.Screen.{Screen, clear, set_screen_pos, backspace, enter, putc, put_cell}
use ece391_os.Screen.Cursor.{OnScreen, placed, set_screen_pos-placed, placed-OnScreen}
use ece391_os.Screen.Output.{
  printed, putc-printed, printed-OnScreen, backspace-placed, put_cell-OnScreen,
}

pub clear_returns :
    (fuel : ℕ) (s : Screen)
    → OnScreen s
    → 3 ≤ fuel
    → (s' : Screen) × (set_screen_pos fuel 0 0 (clear s) ≡ some s') × OnScreen s'
unfolding clear
clear_returns fuel s o h = (
  placed 0 0 (clear s),
  set_screen_pos-placed fuel 0 0 (clear s) (ground arith) h,
  placed-OnScreen 0 0 (clear s),
)

pub enter_returns :
    (fuel : ℕ) (s : Screen)
    → OnScreen s
    → 3 ≤ fuel
    → (s' : Screen) × (enter fuel s ≡ some s') × OnScreen s'
unfolding enter
enter_returns fuel s o h = (
  placed 0 (s.screen_y + 1) s,
  set_screen_pos-placed fuel 0 (s.screen_y + 1) s o h,
  placed-OnScreen 0 (s.screen_y + 1) s,
)

pub putc_returns :
    (fuel c : ℕ) (s : Screen)
    → OnScreen s
    → 3 ≤ fuel
    → (s' : Screen) × (putc fuel c s ≡ some s') × OnScreen s'
putc_returns fuel c s o h = (printed c s, putc-printed fuel c s o h, printed-OnScreen c s)

pub backspace_returns :
    (fuel : ℕ) (s : Screen)
    → OnScreen s
    → 3 ≤ fuel
    → (s' : Screen) × (backspace fuel s ≡ some s') × OnScreen s'
backspace_returns fuel s o h =
    let back =
      if s.screen_x == 0
      then placed 79 ((s.screen_y + 2 ^ 32 - 1) % 2 ^ 32) s
      else placed (s.screen_x - 1) s.screen_y s in
    (put_cell b' ' back, backspace-placed fuel s o h, put_cell-OnScreen b' ' back on)
  where
    on : OnScreen (
        if s.screen_x == 0
        then placed 79 ((s.screen_y + 2 ^ 32 - 1) % 2 ^ 32) s
        else placed (s.screen_x - 1) s.screen_y s)
    on = elim (Bool-cases (s.screen_x == 0)) [
      | inl e ↦ rw e (placed-OnScreen 79 _ s)
      | inr e ↦ rw e (placed-OnScreen _ _ s)
    ]
