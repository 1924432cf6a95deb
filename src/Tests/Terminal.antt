-- ===== src/Tests/Terminal.antt =====
-- Three active terminals, and a switch from the first to the second and back.
use ece391_os.Common.{ℕ, ◌+◌, ◌*◌, ◌≡◌, refl, arith, some, [], pos}
use ece391_os.Tests.Screen.{top_left, top_left-OnScreen}
use ece391_os.Tests.Paging.{empty}
use ece391_os.Terminal.{Term, Terminals, returned, switch_terminal}
use ece391_os.Terminal.Switch.{AreOnScreen, ShowsSame, switch_back}

-- Terminal `i` runs process `i`.
abbrev running_term : ℕ → Term
running_term i = record {
  id = i;
  pos_x = 7;
  pos_y = 3;
  active = 1;
  apn = pos i;
  key_buffer = [];
  key_buffer_idx = 0;
  eflag = 0;
  video_mem = 0x6401000 + i * 0x1000;
  buffer = λ b. 0;
}

abbrev pub three : Terminals
three = record {
  term = running_term;
  screen = top_left;
  key_buffer_idx = 4;
  key_buffer_of = 0;
  paging = empty;
  cur_active = 0;
}

three-AreOnScreen : AreOnScreen three
three-AreOnScreen = record { shown = top_left-OnScreen; saved = λ i. (omega arith, omega arith) }

switch_back_example :
    (s1 s2 : Terminals) × (switch_terminal 3 1 three ≡ some (returned (pos 0), s1))
    × (switch_terminal 3 0 s1 ≡ some (returned (pos 0), s2))
    × ShowsSame three s2
switch_back_example =
    switch_back 3 1 three three-AreOnScreen (omega arith) (omega arith) (omega arith) refl refl
      (omega arith)
