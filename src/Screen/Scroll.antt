-- ===== src/Screen/Scroll.antt =====
-- What scrolling, clearing and the panic screen of lib.c do to the cells of video memory.
use ece391_os.Common.{
  ℕ, zero, suc, ◌+◌, ◌*◌, ◌%◌, ◌≤◌, ◌≡◌, arith, leb, ltb, ◌==◌, ◌&&◌, if◌then◌else◌,
}
use ece391_os.Memory.{Mem, upd}
use ece391_os.Screen.{Screen, blue_from, blue_screen, move_row, move_rows, clear_row, scroll_video}

move_row_lem :
    (r : ℕ) (v : Mem) (y x b : ℕ)
    → x + r ≤ 80
    → move_row r v y x b ≡ (
        if leb (2 * (80 * y + x)) b && ltb b (2 * (80 * y + x + r)) && b % 2 == 0
        then v (b + 160)
        else v b)
unfolding move_row upd
move_row_lem zero v y x b h = ground arith
move_row_lem (suc r) v y x b h =
    ground
      (arith, move_row_lem r (upd v (2 * (80 * y + x)) (v (2 * (80 * (y + 1) + x)))) y (x + 1) b)

move_rows_lem :
    (r : ℕ) (v : Mem) (y b : ℕ)
    → move_rows r v y b
      ≡ (if leb (160 * y) b && ltb b (160 * (y + r)) && b % 2 == 0 then v (b + 160) else v b)
unfolding move_rows
move_rows_lem zero v y b = ground arith
move_rows_lem (suc r) v y b = ground (
  arith,
  move_rows_lem r (move_row 80 v y 0) (y + 1) b,
  move_row_lem 80 v y 0 b,
  move_row_lem 80 v y 0 (b + 160),
)

clear_row_lem :
    (r : ℕ) (v : Mem) (x b : ℕ)
    → clear_row r v x b
      ≡ (if leb (3840 + 2 * x) b && ltb b (3840 + 2 * (x + r)) && b % 2 == 0 then 32 else v b)
unfolding clear_row upd
clear_row_lem zero v x b = ground arith
clear_row_lem (suc r) v x b = ground (arith, clear_row_lem r (upd v (2 * (1920 + x)) 32) (x + 1) b)

-- Scrolling moves the characters of the lower 24 rows up by one row and blanks the last row; it
-- leaves every attribute and all that lies behind the screen.
pub scroll_video_lem :
    (v : Mem) (b : ℕ)
    → scroll_video v b
      ≡ (if ltb b 4000 && b % 2 == 0 then (if ltb b 3840 then v (b + 160) else 32) else v b)
unfolding scroll_video
scroll_video_lem v b =
    ground (arith, clear_row_lem 80 (move_rows 24 v 0) 0 b, move_rows_lem 24 v 0 b)

blue_from_lem :
    (r : ℕ) (v : Mem) (i b : ℕ)
    → blue_from r v i b ≡ (if leb (2 * i) b && ltb b (2 * (i + r)) && b % 2 == 1 then 0x16 else v b)
unfolding blue_from upd
blue_from_lem zero v i b = ground arith
blue_from_lem (suc r) v i b = ground (arith, blue_from_lem r (upd v (2 * i + 1) 0x16) (i + 1) b)

-- blue_screen sets every attribute of the screen, and changes no character.
pub blue_screen_lem :
    (s : Screen) (b : ℕ)
    → (blue_screen s).video b ≡ (if ltb b 4000 && b % 2 == 1 then 0x16 else s.video b)
unfolding blue_screen
blue_screen_lem s b = ground (arith, blue_from_lem 2000 s.video 0 b)
