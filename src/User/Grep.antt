-- ===== src/User/Grep.antt =====
-- The user program syscalls/ece391grep.c. The string, the file's name and the arrays are given by
-- their addresses. A call that reads returns a count or -1.
use ece391_os.Common.{
  ℕ, zero, suc, ◌+◌, ◌-◌, Bool, leb, ◌==◌, ◌&&◌, not, if◌then◌else◌, none, ℤ, pos, minus_one,
  is_zero, signed8,
}
use ece391_os.Memory.{Mem}
use ece391_os.User.{ece391_strncmp}
use ece391_os.User.Calls.{
  Run, ◌>>=◌, ◌>>◌, give, load, store, Calls, fdputs, string_length, copy_string, puts_literal,
  failed, is_number, pos_part, at_offset,
}

-- The index of the newline, or `i` plus the rounds.
unfoldable pub line_end_from : ℕ → Mem → ℕ → ℕ → ℕ
line_end_from zero m text i = i
line_end_from (suc rounds) m text i =
    let rest = line_end_from rounds m text (i + 1) in if m (text + i) == 10 then i else rest

module _ {W : Type 0} (c : Calls W) where
  open c use {ece391_read, ece391_open, ece391_close, ece391_getargs, literal}

  -- fname:line
  unfoldable pub print_line : ℕ → ℕ → Run W (Unit {0})
  print_line fname line = do
    fdputs c (pos 1) fname
    puts_literal c ":"
    fdputs c (pos 1) line
    puts_literal c "\n"

  -- Whether the string stands at `here`: its first character is read through the signed char.
  unfoldable pub matches : ℕ → ℕ → ℕ → Mem → Bool
  unfolding ece391_strncmp
  matches s s_len here m =
      is_number (signed8 (m s)) (m here) && is_zero (ece391_strncmp m here s s_len)

  -- The search of a line, which stops at the first place where the string stands.
  unfoldable pub search_line : ℕ → ℕ → ℕ → ℕ → ℕ → ℕ → Run W (Unit {0})
  unfolding print_line
  search_line zero s s_len fname line here u = give tt u
  search_line (suc rounds) s s_len fname line here u =
      let rest = search_line rounds s s_len fname line (here + 1) u in
      if matches s s_len here u.memory then print_line fname line u else rest

  -- The inner loop: the new value of `last`.
  unfoldable pub lines_loop : ℕ → ℕ → ℕ → ℕ → ℕ → ℕ → ℕ → ℕ → Run W ℕ
  unfolding line_end_from search_line store
  lines_loop zero s s_len fname text cnt last line_start u = none
  lines_loop (suc fuel) s s_len fname text cnt last line_start u =
      let line_end = line_end_from (last - line_start) u.memory text line_start in
      let copy = (do
        store (text + line_end) 0
        copy_string c text (text + line_start)
        give (last - line_start)) in
      let search = (do
        store (text + line_end) 0
        search_line (line_end - line_start) s s_len fname (text + line_start) (text + line_start)
        if leb last (line_end + 1)
            then give 0
            else lines_loop fuel s s_len fname text cnt last (line_end + 1)) in
      if not (u.memory (text + line_end) == 10) && (not (cnt == 0) && not (line_start == 0))
      then copy u
      else search u

  -- The outer loop.
  unfoldable pub file_loop : ℕ → ℕ → ℕ → ℕ → ℕ → ℤ → ℕ → Run W ℤ
  unfolding lines_loop
  file_loop zero s s_len fname text fd last u = none
  file_loop (suc fuel) s s_len fname text fd last u =
      (do
        cnt ← ece391_read fd (text + last) (1024 - last)
        if failed cnt then (do puts_literal c "file read failed\n"; give minus_one) else do
          last' ← lines_loop 1025 s s_len fname text (pos_part cnt) (last + pos_part cnt) 0
          if is_zero cnt
              then (do
                r ← ece391_close fd
                if failed r
                    then (do puts_literal c "file close failed\n"; give minus_one)
                    else give (pos 0))
              else file_loop fuel s s_len fname text fd last')
        u

  unfoldable pub do_one_file : ℕ → ℕ → ℕ → ℕ → Run W ℤ
  unfolding file_loop
  do_one_file fuel s fname text = do
    s_len ← string_length c s
    fd ← ece391_open fname
    if failed fd
        then (do puts_literal c "file open failed\n"; give minus_one)
        else file_loop fuel s s_len fname text fd 0

  -- The loop of main over the directory; `fuel` is also that of each file.
  unfoldable pub grep_loop : ℕ → ℕ → ℕ → ℕ → ℤ → ℕ → Run W ℤ
  unfolding do_one_file store
  grep_loop files zero search text fd buf u = none
  grep_loop files (suc fuel) search text fd buf u =
      (do
        cnt ← ece391_read fd buf 32
        first ← load buf
        if is_zero cnt
            then give (pos 0)
            else if failed cnt
            then (do puts_literal c "directory entry read failed\n"; give (pos 3))
            else if first == 46
            then grep_loop files fuel search text fd buf
            else do
              store (at_offset buf cnt) 0
              r ← do_one_file files search buf text
              if is_zero r then grep_loop files fuel search text fd buf else give (pos 3))
        u

  unfoldable pub grep : ℕ → ℕ → ℕ → ℕ → ℕ → Run W ℤ
  unfolding grep_loop
  grep files fuel search text buf = do
    args ← ece391_getargs search 1024
    if not (is_zero args) then (do puts_literal c "could not read argument\n"; give (pos 3)) else do
      fd ← ece391_open (literal ".")
      if failed fd
          then (do puts_literal c "directory open failed\n"; give (pos 2))
          else grep_loop files fuel search text fd buf
