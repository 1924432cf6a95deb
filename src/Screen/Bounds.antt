-- ===== src/Screen/Bounds.antt =====
-- What is written to the screen (lib.c) stays within the 4000 bytes of its cells.
use ece391_os.Common.{
  ℕ, ◌+◌, ◌≤◌, ◌≡◌, refl, ◌∙◌, arith, ◌==◌, ◌||◌, List, Bool-cases, inl, inr, Holds,
}
use ece391_os.Memory.{Mem, upd}
use ece391_os.Print.{printf}
use ece391_os.Print.Keep.{printf_keeps}
use ece391_os.Screen.{Screen, put_cell, set_cursor_pos, putc}
use ece391_os.Screen.Scroll.{scroll_video_lem}
use ece391_os.Screen.Cursor.{OnScreen, placed}
use ece391_os.Screen.Output.{printed, putc-printed, printed-OnScreen}

-- The cursor is on the screen, and what is behind the cells is as in `s0`.
pub record IsWithin (s0 s : Screen) : Type 0 where
  pub cursor : OnScreen s
  pub beyond : (b : ℕ) → 4000 ≤ b → s.video b ≡ s0.video b

placed_beyond : (x y : ℕ) (s : Screen) (b : ℕ) → 4000 ≤ b → (placed x y s).video b ≡ s.video b
unfolding placed set_cursor_pos
placed_beyond x y s b h = ground (arith, scroll_video_lem s.video b)

put_cell_beyond :
    (c : ℕ) (s : Screen) (b : ℕ) → OnScreen s → 4000 ≤ b → (put_cell c s).video b ≡ s.video b
unfolding put_cell upd
put_cell_beyond c s b o h = ground (arith, o.column, o.row)

printed_beyond :
    (c : ℕ) (s : Screen) (b : ℕ) → OnScreen s → 4000 ≤ b → (printed c s).video b ≡ s.video b
printed_beyond c s b o h = elim (Bool-cases (c == b'\n' || c == b'\r')) [
  | inl y ↦ rw y (placed_beyond 0 (s.screen_y + 1) s b h)
  | inr y ↦
      rw y
        (placed_beyond (s.screen_x + 1) s.screen_y (put_cell c s) b h ∙ put_cell_beyond c s b o h)
]

-- Whatever the format, its arguments and the memory are, a printf that returns has, with the cursor
-- on the screen when it began and a depth of at least 3, written no byte
-- of video memory behind the 4000 of the screen, and the cursor is on the screen again.
pub printf-IsWithin :
    (fuel size chars conv format : ℕ) (args : List ℕ) (m : Mem) (s : Screen)
    → 3 ≤ fuel
    → OnScreen s
    → Holds
        (λ (o : ℕ × Mem × Screen). IsWithin s o.2)
        (printf (putc fuel) size chars conv format args m s)
printf-IsWithin fuel size chars conv format args m s h o =
    printf_keeps (IsWithin s) (putc fuel)
      (λ c s1 w. rw (putc-printed fuel c s1 w.cursor h) (record {
        cursor = printed-OnScreen c s1;
        beyond = λ b l. printed_beyond c s1 b w.cursor l ∙ w.beyond b l;
      }))
      size chars conv format args m s (record { cursor = o; beyond = λ b l. refl })
