-- ===== src/Screen/Output.antt =====
-- Writing to the screen: putc, puts and backspace of lib.c.
use ece391_os.Common.{
  ℕ, ◌+◌, ◌-◌, ◌*◌, ◌^◌, ◌%◌, ◌≤◌, ◌<◌, ◌≡◌, ◌≢◌, arith, ◌==◌, ◌||◌, if◌then◌else◌, some, get_or,
  inl, inr, Bool-cases, ap, List, [], ◌∷◌, ◌++◌, length, ◌∙◌, refl,
}
use ece391_os.Memory.{Mem, upd}
use ece391_os.Print.Text.{IsText, emit, puts-emit}
use ece391_os.Screen.{
  Screen, attribute, cell, put_cell, set_cursor_pos, putc, backspace, puts, blue_screen,
}
use ece391_os.Screen.Cursor.{
  OnScreen, moved_to, scrolled_at, placed, set_screen_pos-placed, placed-OnScreen,
}

pub put_cell-OnScreen : (c : ℕ) (s : Screen) → OnScreen s → OnScreen (put_cell c s)
unfolding put_cell
put_cell-OnScreen c s o = ground arith

-- What putc shows: a line break moves to the next line, any other character is written at the
-- cursor, which moves on by one.
abbrev pub printed : ℕ → Screen → Screen
printed c s =
    if c == b'\n' || c == b'\r'
    then placed 0 (s.screen_y + 1) s
    else placed (s.screen_x + 1) s.screen_y (put_cell c s)

pub putc-printed :
    (fuel c : ℕ) (s : Screen) → OnScreen s → 3 ≤ fuel → putc fuel c s ≡ some (printed c s)
unfolding putc put_cell
putc-printed fuel c s o h = ground (
  arith,
  set_screen_pos-placed fuel 0 (s.screen_y + 1) s o h,
  set_screen_pos-placed fuel (s.screen_x + 1) s.screen_y (put_cell c s) (put_cell-OnScreen c s o) h,
)

pub printed-OnScreen : (c : ℕ) (s : Screen) → OnScreen (printed c s)
printed-OnScreen c s = elim (Bool-cases (c == b'\n' || c == b'\r')) [
  | inl e ↦ rw e (placed-OnScreen 0 (s.screen_y + 1) s)
  | inr e ↦ rw e (placed-OnScreen (s.screen_x + 1) s.screen_y (put_cell c s))
]

pub blue_screen-OnScreen : (s : Screen) → OnScreen s → OnScreen (blue_screen s)
unfolding blue_screen
blue_screen-OnScreen s o = record { column = o.column; row = o.row }

pub printed-cur_term : (c : ℕ) (s : Screen) → (printed c s).cur_term ≡ s.cur_term
unfolding placed set_cursor_pos put_cell
printed-cur_term c s = ground arith

-- What the screen shows after all the characters.
abbrev pub printed_all : List ℕ → Screen → Screen
printed_all [] s = s
printed_all (c ∷ cs) s = printed_all cs (printed c s)

pub printed_all-OnScreen : (cs : List ℕ) (s : Screen) → OnScreen s → OnScreen (printed_all cs s)
printed_all-OnScreen [] s o = o
printed_all-OnScreen (c ∷ cs) s o = printed_all-OnScreen cs (printed c s) (printed-OnScreen c s)

pub printed_all-cur_term : (cs : List ℕ) (s : Screen) → (printed_all cs s).cur_term ≡ s.cur_term
printed_all-cur_term [] s = refl
printed_all-cur_term (c ∷ cs) s = printed_all-cur_term cs (printed c s) ∙ printed-cur_term c s

pub printed_all-append :
    (xs ys : List ℕ) (s : Screen) → printed_all (xs ++ ys) s ≡ printed_all ys (printed_all xs s)
printed_all-append [] ys s = refl
printed_all-append (x ∷ xs) ys s = printed_all-append xs ys (printed x s)

pub emit-printed_all :
    (fuel : ℕ) (cs : List ℕ) (s : Screen)
    → OnScreen s
    → 3 ≤ fuel
    → emit (putc fuel) cs s ≡ some (printed_all cs s)
unfolding emit
emit-printed_all fuel [] s o h = refl
emit-printed_all fuel (c ∷ cs) s o h =
    rw (putc-printed fuel c s o h) (emit-printed_all fuel cs (printed c s) (printed-OnScreen c s) h)

-- With the cursor on the screen and fuel for the characters of the string, puts writes each of them,
-- its result is the length of the string, and the cursor is still on the screen.
pub puts-printed_all :
    (chars fuel : ℕ) (m : Mem) (str : ℕ) (cs : List ℕ) (s : Screen)
    → IsText m str cs
    → length cs < chars
    → OnScreen s
    → 3 ≤ fuel
    → (puts chars fuel m str s ≡ some (length cs, printed_all cs s)) × OnScreen (printed_all cs s)
unfolding puts
puts-printed_all chars fuel m str cs s t p o h = (
  puts-emit (putc fuel) chars m str cs s t p ∙ rw (emit-printed_all fuel cs s o h) refl,
  printed_all-OnScreen cs s o,
)

-- `s'` is `s` with the cursor one cell back and that cell blank in the terminal's colour.
pub record SteppedBack (s s' : Screen) : Type 0 where
  pub on_screen : OnScreen s'
  pub one_back : cell s' + 2 ≡ cell s
  pub blanked :
      (b : ℕ)
      → s'.video b ≡ (
          if b == cell s'
          then b' '
          else (if b == cell s' + 1 then get_or attribute s.cur_term 0 else s.video b))

pub backspace-placed :
    (fuel : ℕ) (s : Screen)
    → OnScreen s
    → 3 ≤ fuel
    → backspace fuel s
      ≡ some (
          put_cell b' ' (
            if s.screen_x == 0
            then placed 79 ((s.screen_y + 2 ^ 32 - 1) % 2 ^ 32) s
            else placed (s.screen_x - 1) s.screen_y s))
unfolding backspace
backspace-placed fuel s o h = ground (
  arith,
  set_screen_pos-placed fuel 79 ((s.screen_y + 2 ^ 32 - 1) % 2 ^ 32) s o h,
  set_screen_pos-placed fuel (s.screen_x - 1) s.screen_y s o h,
)

moved-SteppedBack :
    (x y : ℕ) (s : Screen)
    → x < 80
    → y < 25
    → 2 * (80 * y + x) + 2 ≡ cell s
    → SteppedBack s (put_cell b' ' (moved_to x y s))
unfolding put_cell set_cursor_pos upd
moved-SteppedBack x y s p q e = record {
  on_screen = ground arith;
  one_back = ground arith;
  blanked = λ b. ground arith;
}

-- Anywhere but at the top left of the screen, backspace moves the cursor back by one cell and blanks
-- that cell.
pub backspace-SteppedBack :
    (fuel : ℕ) (s : Screen)
    → OnScreen s
    → 0 < cell s
    → 3 ≤ fuel
    → (s' : Screen) × (backspace fuel s ≡ some s') × SteppedBack s s'
unfolding placed
backspace-SteppedBack fuel s o p h = elim (Bool-cases (s.screen_x == 0)) [
  | inl z ↦ (
    put_cell b' ' (moved_to 79 (s.screen_y - 1) s),
    ground (arith, backspace-placed fuel s o h),
    moved-SteppedBack 79 (s.screen_y - 1) s (omega arith) (omega arith) (ground arith),
  )
  | inr nz ↦ (
    put_cell b' ' (moved_to (s.screen_x - 1) s.screen_y s),
    ground (arith, backspace-placed fuel s o h),
    moved-SteppedBack (s.screen_x - 1) s.screen_y s (omega arith) (omega arith) (ground arith),
  )
]

-- At the top left, backspace does not stay: it scrolls the screen and goes to the start of the last
-- line.
pub backspace_top_left :
    (fuel : ℕ) (s : Screen)
    → s.screen_x ≡ 0
    → s.screen_y ≡ 0
    → 3 ≤ fuel
    → backspace fuel s ≡ some (put_cell b' ' (scrolled_at 0 24 s))
unfolding placed
backspace_top_left fuel s p q h = ground (arith, backspace-placed fuel s (omega arith) h)

printed_next :
    (c : ℕ) (s : Screen)
    → OnScreen s
    → cell s < 3998
    → c ≢ b'\n'
    → c ≢ b'\r'
    → (cell (printed c s) ≡ cell s + 2)
      × ((printed c s).cur_term ≡ s.cur_term)
      × ((printed c s).video ≡ (put_cell c s).video)
unfolding placed set_cursor_pos put_cell
printed_next c s o p n r = (ground arith, ground arith, ground arith)

-- Backspace undoes putc of a character that is not a line break, but for the last cell of the
-- screen: the cursor is back where it was, the cell there is blank in the terminal's colour, and no
-- other cell has changed.
pub backspace-putc :
    (fuel c : ℕ) (s : Screen)
    → OnScreen s
    → cell s < 3998
    → c ≢ b'\n'
    → c ≢ b'\r'
    → 3 ≤ fuel
    → (s1 s2 : Screen) × (putc fuel c s ≡ some s1)
      × (backspace fuel s1 ≡ some s2)
      × (s2.screen_x ≡ s.screen_x)
      × (s2.screen_y ≡ s.screen_y)
      × ((b : ℕ)
          → s2.video b ≡ (
              if b == cell s
              then b' '
              else (if b == cell s + 1 then get_or attribute s.cur_term 0 else s.video b)))
unfolding put_cell upd
backspace-putc fuel c s o p n r h =
    let s1 = printed c s in
    let (next, same, video) = printed_next c s o p n r in
    let (s2, eq, back) = backspace-SteppedBack fuel s1 (printed-OnScreen c s) (omega arith) h in
    let here : cell s2 ≡ cell s = omega (arith, back.one_back) in
    (
      s1,
      s2,
      putc-printed fuel c s o h,
      eq,
      omega (arith, back.on_screen),
      omega (arith, back.on_screen),
      λ b. ground (arith, back.blanked b, ap (λ (v : Mem). v b) video),
    )
