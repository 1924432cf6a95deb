-- ===== src/Terminal/Switch.antt =====
-- Switching terminals (terminal.c) loses nothing of what is on the screen.
use ece391_os.Common.{ℕ, ◌≤◌, ◌<◌, ◌≡◌, ◌≢◌, refl, sym, ◌∙◌, arith, le→ltb, ne→==, some, pos}
use ece391_os.Screen.{set_cursor_pos}
use ece391_os.Screen.Cursor.{OnScreen, moved_to, placed, set_screen_pos-placed}
use ece391_os.Terminal.{
  Terminals, returned, put, copy_screen, save, restore, switch_helper, show, remap_video,
  switch_terminal, location, max_term,
}

-- The cursor of the shown screen, and of every saved one, lies on the screen.
pub record AreOnScreen (s : Terminals) : Type 0 where
  pub shown : OnScreen s.screen
  pub saved : (i : ℕ) → ((s.term i).pos_x < 80) × ((s.term i).pos_y < 25)

-- What `restore` leaves: the saved cursor, index and cells.
abbrev pub restored : ℕ → Terminals → Terminals
restored n s =
    let t = s.term n in
    let scr = moved_to t.pos_x t.pos_y s.screen in
    record s {
      key_buffer_idx = t.key_buffer_idx;
      screen = record scr { video = copy_screen t.buffer scr.video };
    }

restore-restored :
    (fuel n : ℕ) (s : Terminals)
    → OnScreen s.screen
    → (s.term n).pos_x < 80
    → (s.term n).pos_y < 25
    → 3 ≤ fuel
    → restore fuel n s ≡ some (restored n s)
unfolding restore placed
restore-restored fuel n s o p q h =
    ground (arith, set_screen_pos-placed fuel (s.term n).pos_x (s.term n).pos_y s.screen o h)

-- The state after a switch between active terminals.
abbrev pub switched : ℕ → Terminals → Terminals
switched n s = remap_video (show n (restored n (save s.screen.cur_term s)))

-- `save` changes the terminal that it saves, and nothing else.
save_other : (old n : ℕ) (s : Terminals) → n ≢ old → (save old s).term n ≡ s.term n
unfolding save put
save_other old n s d = ground arith

save_screen : (old : ℕ) (s : Terminals) → (save old s).screen ≡ s.screen
unfolding save
save_screen old s = refl

pub switch_terminal-switched :
    (fuel n : ℕ) (s : Terminals)
    → AreOnScreen s
    → n < max_term
    → n ≢ s.screen.cur_term
    → (s.term n).active ≡ 1
    → 3 ≤ fuel
    → switch_terminal fuel n s ≡ some (returned (pos 0), switched n s)
unfolding switch_terminal switch_helper
switch_terminal-switched fuel n s v l d a h =
    let old = s.screen.cur_term in
    let same = save_other old n s d in
    let (x, y) = v.saved n in
    let ready =
      restore-restored fuel n (save old s) (rw (save_screen old s) v.shown) (rw same x) (rw same y)
        h in
    rw (le→ltb 2 n (omega arith), ne→== n old d, a, ready)

pub switched-AreOnScreen :
    (n : ℕ) (s : Terminals) → AreOnScreen s → n ≢ s.screen.cur_term → AreOnScreen (switched n s)
unfolding save put remap_video set_cursor_pos
switched-AreOnScreen n s v d = record {
  shown = ground (arith, v.saved n);
  saved = λ i. ground (arith, v.saved i);
}

-- Two states show the same: cursor, cells, terminal and key buffer.
pub record ShowsSame (s s' : Terminals) : Type 0 where
  pub column : s'.screen.screen_x ≡ s.screen.screen_x
  pub row : s'.screen.screen_y ≡ s.screen.screen_y
  pub cells : (b : ℕ) → b < location → s'.screen.video b ≡ s.screen.video b
  pub shown : s'.screen.cur_term ≡ s.screen.cur_term
  pub index : s'.key_buffer_idx ≡ s.key_buffer_idx

-- A switch shows the terminal that it names, and starts or stops none.
back_differs :
    (n : ℕ) (s : Terminals)
    → n ≢ s.screen.cur_term
    → s.screen.cur_term ≢ (switched n s).screen.cur_term
unfolding remap_video
back_differs n s d = λ e. d (sym e)

stays_active : (n : ℕ) (s : Terminals) (i : ℕ) → ((switched n s).term i).active ≡ (s.term i).active
unfolding remap_video save put
stays_active n s i = ground arith

-- What the terminals run, and which one executes, stays; the named terminal is shown.
pub switched-runs :
    (n : ℕ) (s : Terminals) (i : ℕ)
    → (((switched n s).term i).active ≡ (s.term i).active)
      × (((switched n s).term i).apn ≡ (s.term i).apn)
unfolding remap_video save put
switched-runs n s i = (ground arith, ground arith)

pub switched-numbers :
    (n : ℕ) (s : Terminals)
    → ((switched n s).screen.cur_term ≡ n) × ((switched n s).cur_active ≡ s.cur_active)
unfolding remap_video save
switched-numbers n s = (refl, refl)

switched_twice :
    (n : ℕ) (s : Terminals)
    → n ≢ s.screen.cur_term
    → ShowsSame s (switched s.screen.cur_term (switched n s))
unfolding remap_video save put copy_screen set_cursor_pos
switched_twice n s d = record {
  column = ground arith;
  row = ground arith;
  cells = λ b l. ground arith;
  shown = refl;
  index = ground arith;
}

-- Switching from the shown terminal to another active one and back returns 0 both times, and shows
-- the cursor, the cells and the key index as they were.
pub switch_back :
    (fuel n : ℕ) (s : Terminals)
    → AreOnScreen s
    → n < max_term
    → s.screen.cur_term < max_term
    → n ≢ s.screen.cur_term
    → (s.term n).active ≡ 1
    → (s.term (s.screen.cur_term)).active ≡ 1
    → 3 ≤ fuel
    → (s1 s2 : Terminals) × (switch_terminal fuel n s ≡ some (returned (pos 0), s1))
      × (switch_terminal fuel s.screen.cur_term s1 ≡ some (returned (pos 0), s2))
      × ShowsSame s s2
switch_back fuel n s v l l' d a a' h =
    let old = s.screen.cur_term in
    let s1 = switched n s in
    (
      s1,
      switched old s1,
      switch_terminal-switched fuel n s v l d a h,
      switch_terminal-switched fuel old s1 (switched-AreOnScreen n s v d) l' (back_differs n s d)
          (stays_active n s old ∙ a') h,
      switched_twice n s d,
    )
