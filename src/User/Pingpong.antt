-- ===== src/User/Pingpong.antt =====
-- The user program syscalls/ece391pingpong.c: a character that runs between two walls.
use ece391_os.Common.{ℕ, zero, suc, ◌+◌, ◌-◌, ◌==◌, if◌then◌else◌, ◌%◌, some, ℤ, pos}
use ece391_os.Memory.{Mem, upd, store32}
use ece391_os.User.Calls.{Run, ◌>>=◌, ◌>>◌, give, Calls, fdputs}

-- BUFMAX, LOOPMAX and STARTLOOP.
abbrev pub bufmax : ℕ
bufmax = 81

abbrev pub loopmax : ℕ
loopmax = 78

abbrev pub startloop : ℕ
startloop = 2

-- A loop that clears a part of the array, with the rounds that are left.
unfoldable pub clear_cells : ℕ → Mem → ℕ → Mem
unfolding upd
clear_cells zero m a = m
clear_cells (suc rounds) m a = clear_cells rounds (upd m a 32) (a + 1)

-- The array with the walls, the newline and the NUL.
unfoldable pub walls : Mem → ℕ → Mem
unfolding clear_cells upd
walls m buf =
    upd (upd (upd (upd (clear_cells bufmax m buf) (buf + 80) 0) (buf + 79) 10) (buf + 78) 124)
      (buf + 1) 124

-- The inner part cleared, and the character at `j`.
unfoldable pub drawn : Mem → ℕ → ℕ → ℕ → Mem
unfolding clear_cells upd
drawn m buf j curchar =
    upd (clear_cells (loopmax - startloop) m (buf + startloop)) (buf + j) curchar

-- The next character: A behind Z.
unfoldable pub next_letter : ℕ → ℕ
next_letter curchar = if curchar == 90 then 65 else (curchar + 1) % 256

module _ {W : Type 0} (c : Calls W) (rtc_fd : ℤ) (buf garbage : ℕ) where
  -- One step: the frame is shown, and the program waits for the clock.
  unfoldable pub show_frame : ℕ → ℕ → Run W (Unit {0})
  unfolding drawn
  show_frame curchar j u =
      (do fdputs c (pos 1) buf; r ← c.ece391_read rtc_fd garbage 4; give tt)
        (record u { memory = drawn u.memory buf j curchar })

  unfoldable pub move_out : ℕ → ℕ → ℕ → Run W (Unit {0})
  unfolding show_frame
  move_out zero curchar j = give tt
  move_out (suc rounds) curchar j = do show_frame curchar j; move_out rounds curchar (j + 1)

  -- `j` is one more than in the source.
  unfoldable pub bounce_back : ℕ → ℕ → ℕ → Run W (Unit {0})
  unfolding show_frame
  bounce_back zero curchar j = give tt
  bounce_back (suc rounds) curchar j = do
    show_frame curchar (j - 1)
    bounce_back rounds curchar (j - 1)

  -- The loop without an end, for some of its rounds.
  unfoldable pub pingpong_rounds : ℕ → ℕ → Run W ℕ
  unfolding move_out bounce_back next_letter
  pingpong_rounds zero curchar = give curchar
  pingpong_rounds (suc rounds) curchar = do
    move_out (loopmax - startloop) curchar startloop
    bounce_back (loopmax - startloop) curchar loopmax
    pingpong_rounds rounds (next_letter curchar)

pub pingpong : {W : Type 0} → Calls W → ℕ → ℕ → ℕ → ℕ → ℕ → Run W ℕ
unfolding walls pingpong_rounds store32
pingpong c rounds buf garbage ret_val rtc u =
    (do
      rtc_fd ← c.ece391_open rtc
      (λ v. some (tt, record v { memory = store32 v.memory ret_val 32 }))
      written ← c.ece391_write rtc_fd ret_val (pos 4)
      pingpong_rounds c rtc_fd buf garbage rounds 65)
      (record u { memory = walls u.memory buf })
