-- ===== src/Terminal/Write.antt =====
-- What a write shows when the writer's terminal is not the one that is shown: the same as on the
-- screen (lib.c, terminal.c).
use ece391_os.Common.{
  ℕ, zero, suc, ◌+◌, ◌%◌, ◌≤◌, ◌<◌, ◌≡◌, ◌≢◌, ◌⊎◌, inl, inr, refl, subst, ◌∙◌, ap, arith, ltb, ◌==◌,
  ◌||◌, if◌then◌else◌, none, some, List, [], ◌∷◌, length, ℤ, pos, Bool-cases, true, ne→==,
}
use ece391_os.Memory.{Mem, upd}
use ece391_os.Print.Text.{IsText, emit}
use ece391_os.Print.Plain.{printf-plain}
use ece391_os.Print.Format.{render, AreWords, Agree, IsPlain, render-plain}
use ece391_os.Print.Run.{printf-render}
use ece391_os.Screen.{Screen, cell, num_cols, num_rows, scroll_video, put_cell, set_cursor_pos}
use ece391_os.Screen.Scroll.{scroll_video_lem}
use ece391_os.Screen.Cursor.{OnScreen, placed}
use ece391_os.Screen.Output.{printed, putc-printed, printed-OnScreen, printed_all}
use ece391_os.Terminal.{Term, Terminals, put, location}
use ece391_os.Terminal.Active.{
  set_screen_pos_term_exec, enter_term_exec, color_shown, put_term_cell, putc_shown,
  putc_terminal_active, printf_terminal_active, terminal_write,
}

-- The terminal's buffer holds the characters of the screen, and its cursor is there too.
pub record Shows (t : Term) (scr : Screen) : Type 0 where
  pub column : t.pos_x ≡ scr.screen_x
  pub row : t.pos_y ≡ scr.screen_y
  pub characters : (b : ℕ) → b < location → b % 2 ≡ 0 → t.buffer b ≡ scr.video b

-- What set_screen_pos_term_exec(x, y) means, as `placed` for the screen.
unfoldable placed_term : ℕ → ℕ → Term → Term
placed_term x y t =
    let scrolled = record t { pos_x = 0; pos_y = 24; buffer = scroll_video t.buffer } in
    if ltb x num_cols
    then (if ltb y num_rows then record t { pos_x = x; pos_y = y } else scrolled)
    else (if ltb (t.pos_y + 1) num_rows
        then record t { pos_x = 0; pos_y = t.pos_y + 1 }
        else scrolled)

set_screen_pos_term_exec-placed_term :
    (fuel x y : ℕ) (t : Term)
    → t.pos_y < num_rows
    → 3 ≤ fuel
    → set_screen_pos_term_exec fuel x y t ≡ some (placed_term x y t)
unfolding set_screen_pos_term_exec placed_term
set_screen_pos_term_exec-placed_term zero x y t o h = absurd (omega arith)
set_screen_pos_term_exec-placed_term (suc zero) x y t o h = absurd (omega arith)
set_screen_pos_term_exec-placed_term (suc (suc zero)) x y t o h = absurd (omega arith)
set_screen_pos_term_exec-placed_term (suc (suc (suc f))) x y t o h = ground arith

scroll_video-same :
    (v w : Mem)
    → ((b : ℕ) → b < location → b % 2 ≡ 0 → v b ≡ w b)
    → (b : ℕ) → b < location
    → b % 2 ≡ 0
    → scroll_video v b ≡ scroll_video w b
scroll_video-same v w h b l e =
    ground (arith, scroll_video_lem v b, scroll_video_lem w b, h (b + 160))

placed_term-Shows :
    (x y : ℕ) (t : Term) (scr : Screen) → Shows t scr → Shows (placed_term x y t) (placed x y scr)
unfolding placed_term placed set_cursor_pos
placed_term-Shows x y t scr h = record {
  column = ground (arith, h.column, h.row);
  row = ground (arith, h.column, h.row);
  characters = λ b l e.
      ground (
        arith,
        h.column,
        h.row,
        h.characters b,
        scroll_video-same t.buffer scr.video h.characters b,
      );
}

put_term_cell-Shows :
    (c : ℕ) (t : Term) (scr : Screen) → Shows t scr → Shows (put_term_cell c t) (put_cell c scr)
unfolding put_term_cell put_cell upd
put_term_cell-Shows c t scr h = record {
  column = h.column;
  row = h.row;
  characters = λ b l e. ground (arith, h.column, h.row, h.characters b);
}

-- What putc_terminal_active leaves of the executing terminal, as `printed` for the screen.
abbrev printed_term : ℕ → Term → Term
printed_term c t =
    if c == b'\n' || c == b'\r'
    then placed_term 0 (t.pos_y + 1) t
    else placed_term (t.pos_x + 1) t.pos_y (put_term_cell c t)

placed_at-Shows :
    (x y x' y' : ℕ) (t : Term) (scr : Screen)
    → x ≡ x'
    → y ≡ y'
    → Shows t scr
    → Shows (placed_term x y t) (placed x' y' scr)
placed_at-Shows x y x' y' t scr e f h =
    subst (λ x1. Shows (placed_term x y t) (placed x1 y' scr)) e
      (subst (λ y1. Shows (placed_term x y t) (placed x y1 scr)) f (placed_term-Shows x y t scr h))

printed_term-Shows :
    (c : ℕ) (t : Term) (scr : Screen) → Shows t scr → Shows (printed_term c t) (printed c scr)
printed_term-Shows c t scr h = elim (Bool-cases (c == b'\n' || c == b'\r')) [
  | inl b ↦
      rw b
        (placed_at-Shows 0 (t.pos_y + 1) 0 (scr.screen_y + 1) t scr refl (ap (λ n. n + 1) h.row) h)
  | inr b ↦ rw b (
      placed_at-Shows (t.pos_x + 1) t.pos_y (scr.screen_x + 1) scr.screen_y (put_term_cell c t)
        (put_cell c scr) (ap (λ n. n + 1) h.column) h.row (put_term_cell-Shows c t scr h))
]

-- From `s` to `s'` the executing terminal came to show `scr`; no other terminal changed, and of the
-- screen at most the attribute at its cursor.
pub record WrittenBehind (scr : Screen) (s s' : Terminals) : Type 0 where
  pub shows : Shows (s'.term s.cur_active) scr
  pub others : (i : ℕ) → i ≢ s.cur_active → s'.term i ≡ s.term i
  pub executing : s'.cur_active ≡ s.cur_active
  pub shown : s'.screen.cur_term ≡ s.screen.cur_term
  pub cursor_x : s'.screen.screen_x ≡ s.screen.screen_x
  pub cursor_y : s'.screen.screen_y ≡ s.screen.screen_y
  pub cells : (b : ℕ) → b ≢ cell s.screen + 1 → s'.screen.video b ≡ s.screen.video b

-- The state after one character.
abbrev after_char : ℕ → Terminals → Terminals
after_char c s = record s {
  term = put s.cur_active (printed_term c (s.term s.cur_active)) s.term;
  screen = if c == b'\n' || c == b'\r' then s.screen else color_shown s.screen;
}

putc_terminal_active-after_char :
    (fuel c : ℕ) (s : Terminals)
    → (s.term s.cur_active).pos_y < num_rows
    → 3 ≤ fuel
    → putc_terminal_active fuel c s ≡ some (after_char c s)
unfolding putc_terminal_active enter_term_exec put_term_cell
putc_terminal_active-after_char fuel c s o h =
    let t = s.term s.cur_active in
    elim (Bool-cases (c == b'\n' || c == b'\r')) [
      | inl b ↦ rw (b, set_screen_pos_term_exec-placed_term fuel 0 (t.pos_y + 1) t o h) refl
      | inr b ↦
          rw
            (
              b,
              set_screen_pos_term_exec-placed_term fuel (t.pos_x + 1) t.pos_y (put_term_cell c t) o
                  h,
            )
            refl
    ]

-- One more character behind.
after_char-WrittenBehind :
    (c : ℕ) (scr : Screen) (s : Terminals)
    → Shows (s.term s.cur_active) scr
    → WrittenBehind (printed c scr) s (after_char c s)
unfolding put color_shown upd
after_char-WrittenBehind c scr s h =
    let same : (s.cur_active == s.cur_active) ≡ true = ground arith in
    let new = printed_term-Shows c (s.term s.cur_active) scr h in
    record {
      shows = rw same new;
      others = λ i d. ground arith;
      executing = refl;
      shown = ground arith;
      cursor_x = ground arith;
      cursor_y = ground arith;
      cells = λ b d. ground arith;
    }

WrittenBehind-compose :
    (scr scr' : Screen) (s s' s'' : Terminals)
    → WrittenBehind scr s s'
    → WrittenBehind scr' s' s''
    → WrittenBehind scr' s s''
WrittenBehind-compose scr scr' s s' s'' h k =
    let here : cell s'.screen ≡ cell s.screen = ground (arith, h.cursor_x, h.cursor_y) in
    record {
      shows = subst (λ i. Shows (s''.term i) scr') h.executing k.shows;
      others = λ i d. k.others i (λ e. d (e ∙ h.executing)) ∙ h.others i d;
      executing = k.executing ∙ h.executing;
      shown = k.shown ∙ h.shown;
      cursor_x = k.cursor_x ∙ h.cursor_x;
      cursor_y = k.cursor_y ∙ h.cursor_y;
      cells = λ b d. k.cells b (omega arith) ∙ h.cells b d;
    }

emit-WrittenBehind :
    (fuel : ℕ) (cs : List ℕ) (scr : Screen) (s : Terminals)
    → OnScreen scr
    → Shows (s.term s.cur_active) scr
    → 3 ≤ fuel
    → (s' : Terminals) × (emit (putc_terminal_active fuel) cs s ≡ some s')
      × WrittenBehind (printed_all cs scr) s s'
unfolding emit
emit-WrittenBehind fuel [] scr s o h l = (
  s,
  refl,
  record {
    shows = h;
    others = λ i d. refl;
    executing = refl;
    shown = refl;
    cursor_x = refl;
    cursor_y = refl;
    cells = λ b d. refl;
  },
)
emit-WrittenBehind fuel (c ∷ cs) scr s o h l =
    let first = after_char-WrittenBehind c scr s h in
    let row : (s.term s.cur_active).pos_y < num_rows = ground (arith, h.row, o.row) in
    let (s', e, rest) =
      emit-WrittenBehind fuel cs (printed c scr) (after_char c s) (printed-OnScreen c scr)
        first.shows l in
    (
      s',
      rw (putc_terminal_active-after_char fuel c s row l) e,
      WrittenBehind-compose (printed c scr) (printed_all cs (printed c scr)) s (after_char c s) s'
          first rest,
    )

-- terminal_write by a process whose terminal is not shown: the buffer is a format, and what printf
-- writes for it comes to stand in the terminal's own buffer just as on a screen `scr` that shows the
-- same; the other terminals and the cells of the screen stay, but for one attribute, and the result
-- is the length of the format, whatever number of bytes was asked for. The format has a rendering,
-- lies apart from printf's buffer and within the bounds, and the cursor of `scr` is on the screen.
pub terminal_write-WrittenBehind :
    (fuel size chars conv : ℕ) (args : List ℕ) (fd : ℤ) (buf : ℕ) (num_bytes : ℤ) (m : Mem)
    (s : Terminals) (scr : Screen) (cs out : List ℕ)
    → s.screen.cur_term ≢ s.cur_active
    → OnScreen scr
    → Shows (s.term s.cur_active) scr
    → 3 ≤ fuel
    → 34 ≤ chars
    → (buf + length cs < conv) ⊎ (conv + 64 ≤ buf)
    → IsText m buf cs
    → length cs < size
    → AreWords args
    → render chars conv m none cs args ≡ some out
    → (m' : Mem) × (s' : Terminals) × (terminal_write fuel size chars conv args fd buf num_bytes m s
        ≡ some (pos (length cs), m', s'))
      × WrittenBehind (printed_all out scr) s s'
unfolding terminal_write printf_terminal_active
terminal_write-WrittenBehind fuel size chars conv args fd buf num_bytes m s scr cs out d o h l k a t
      z w e =
    let (m', g, runs) =
      printf-render (putc_terminal_active fuel) size chars conv m buf cs args out k a t z w e in
    let (s', f, behind) = emit-WrittenBehind fuel out scr s o h l in
    (m', s', rw (ne→== s.screen.cur_term s.cur_active d, runs s, f) refl, behind)

emit-putc_shown :
    (fuel : ℕ) (cs : List ℕ) (s : Terminals)
    → OnScreen s.screen
    → 3 ≤ fuel
    → emit (putc_shown fuel) cs s ≡ some (record s { screen = printed_all cs s.screen })
unfolding emit putc_shown
emit-putc_shown fuel [] s o h = refl
emit-putc_shown fuel (c ∷ cs) s o h = rw (putc-printed fuel c s.screen o h) (
    emit-putc_shown fuel cs (record s { screen = printed c s.screen }) (printed-OnScreen c s.screen)
      h)

-- terminal_write of text without a `%` by the process of the terminal that is shown: each character
-- of it, up to its NUL, goes to the screen, whatever number of bytes was asked for; nothing else of
-- the terminals changes, and the result is the length of the text. The cursor is on the screen, and
-- the text lies apart from printf's buffer and within the bounds.
pub terminal_write-printed_all :
    (fuel size chars conv : ℕ) (args : List ℕ) (fd : ℤ) (buf : ℕ) (num_bytes : ℤ) (m : Mem)
    (s : Terminals) (cs : List ℕ)
    → s.screen.cur_term ≡ s.cur_active
    → OnScreen s.screen
    → 3 ≤ fuel
    → 34 ≤ chars
    → (buf + length cs < conv) ⊎ (conv + 64 ≤ buf)
    → IsText m buf cs
    → length cs < size
    → AreWords args
    → IsPlain cs
    → (m' : Mem) × Agree m m' conv
      × (terminal_write fuel size chars conv args fd buf num_bytes m s
          ≡ some (pos (length cs), m', record s { screen = printed_all cs s.screen }))
unfolding terminal_write
terminal_write-printed_all fuel size chars conv args fd buf num_bytes m s cs d o l k a t z w p =
    let (m', g, runs) =
      printf-render (putc_shown fuel) size chars conv m buf cs args cs k a t z w
        (render-plain chars conv m cs args p) in
    let same : (s.screen.cur_term == s.cur_active) ≡ true = ground (arith, d) in
    (m', g, rw (same, runs s, emit-putc_shown fuel cs s o l) refl)

pub terminal_write-kept :
    (fuel size chars conv : ℕ) (args : List ℕ) (fd : ℤ) (buf : ℕ) (num_bytes : ℤ) (m : Mem)
    (s : Terminals) (cs : List ℕ)
    → s.screen.cur_term ≡ s.cur_active
    → OnScreen s.screen
    → 3 ≤ fuel
    → IsText m buf cs
    → length cs < size
    → IsPlain cs
    → terminal_write fuel size chars conv args fd buf num_bytes m s
      ≡ some (pos (length cs), m, record s { screen = printed_all cs s.screen })
unfolding terminal_write
terminal_write-kept fuel size chars conv args fd buf num_bytes m s cs d o l t w p =
    let same : (s.screen.cur_term == s.cur_active) ≡ true = ground (arith, d) in
    rw
      (
        same,
        printf-plain (putc_shown fuel) size chars conv buf args m s
            (record s { screen = printed_all cs s.screen }) cs t p w
            (emit-putc_shown fuel cs s o l),
      )
      refl
