-- ===== src/Tests/Screen.antt =====
-- The cursor and the cells of the screen of lib.c.
use ece391_os.Common.{ℕ, ◌+◌, ◌≡◌, refl, ◌==◌, if◌then◌else◌, arith, some, [], ◌∷◌, get_or}
use ece391_os.Memory.{Mem}
use ece391_os.Screen.{
  Screen, attribute, cell, put_cell, scroll_video, set_screen_pos, putc, backspace, puts,
}
use ece391_os.Screen.Scroll.{scroll_video_lem}
use ece391_os.Screen.Cursor.{OnScreen, moved_to, placed, scrolled_at, set_screen_pos-placed}
use ece391_os.Screen.Output.{puts-printed_all, printed_all, backspace-putc, backspace_top_left}
use ece391_os.Tests.Strings.{word}

abbrev blank : Mem
blank b = 0

abbrev pub top_left : Screen
top_left = record { screen_x = 0; screen_y = 0; video = blank; cursor = []; cur_term = 0 }

pub top_left-OnScreen : OnScreen top_left
top_left-OnScreen = record { column = omega arith; row = omega arith }

-- A column off the screen moves to the next line.
set_screen_pos-placed_example : set_screen_pos 3 80 0 top_left ≡ some (moved_to 0 1 top_left)
unfolding placed
set_screen_pos-placed_example =
    set_screen_pos-placed 3 80 0 top_left top_left-OnScreen (omega arith)

abbrev counted : Mem
counted b = b

scroll_video_lem_run : scroll_video counted 2 ≡ 162
scroll_video_lem_run = scroll_video_lem counted 2

puts-printed_all_example :
    (puts 4 3 word 100 top_left ≡ some (3, printed_all (99 ∷ 97 ∷ 116 ∷ []) top_left))
    × OnScreen (printed_all (99 ∷ 97 ∷ 116 ∷ []) top_left)
puts-printed_all_example =
    puts-printed_all 4 3 word 100 (99 ∷ 97 ∷ 116 ∷ []) top_left
      (refl, omega arith, (refl, omega arith, (refl, omega arith, refl))) (omega arith)
      top_left-OnScreen (omega arith)

backspace-putc_example :
    (s1 s2 : Screen) × (putc 3 65 top_left ≡ some s1)
    × (backspace 3 s1 ≡ some s2)
    × (s2.screen_x ≡ 0)
    × (s2.screen_y ≡ 0)
    × ((b : ℕ)
        → s2.video b ≡ (
            if b == cell top_left
            then b' '
            else (if b == cell top_left + 1 then get_or attribute 0 0 else 0)))
backspace-putc_example =
    backspace-putc 3 65 top_left top_left-OnScreen (omega arith) (omega arith) (omega arith)
      (omega arith)

backspace-top_left_run : backspace 3 top_left ≡ some (put_cell b' ' (scrolled_at 0 24 top_left))
backspace-top_left_run = backspace_top_left 3 top_left refl refl (omega arith)
