-- ===== src/User/Programs.antt =====
-- The user programs syscalls/ece391cat.c, ece391ls.c, ece391hello.c, ece391testprint.c and
-- ece391shell.c. A local array is given by its address; a loop takes fuel.
pub mod Counter
pub mod Hello
pub mod Shell
use ece391_os.Common.{
  ℕ, zero, suc, ◌+◌, Bool, ltb, ◌==◌, ◌&&◌, ◌||◌, not, if◌then◌else◌, none, ℤ, pos, negsuc, is_zero,
}
use ece391_os.User.Calls.{
  Run, ◌>>=◌, ◌>>◌, give, load, store, Calls, fdputs, compare_strings, string_length, convert,
  puts_literal, failed, at_offset, one_more, is_number,
}

-- How far counter counts for the first character of the line.
unfoldable pub count_limit : ℕ → ℕ
count_limit first =
    if first == 48 then 100 else if first == 49 then 10000 else if first == 50 then 100000 else 0

-- The two calls of ece391_strlen that decide whether the choice is wrong.
unfoldable pub wrong_choice : ℕ → ℕ → Bool
wrong_choice len first = ltb 2 len || (len == 2 && (ltb first 48 || ltb 50 first))

module _ {W : Type 0} (c : Calls W) where
  open c use {ece391_execute, ece391_read, ece391_write, ece391_open, ece391_getargs}

  -- The loop of cat.
  unfoldable pub cat_loop : ℕ → ℤ → ℕ → Run W ℤ
  cat_loop zero fd buf u = none
  cat_loop (suc fuel) fd buf u =
      (do
        cnt ← ece391_read fd buf 1024
        if is_zero cnt
            then give (pos 0)
            else if failed cnt
            then (do puts_literal c "file read failed\n"; give (pos 3))
            else do
              written ← ece391_write (pos 1) buf cnt
              if failed written then give (pos 3) else cat_loop fuel fd buf)
        u

  unfoldable pub cat : ℕ → ℕ → Run W ℤ
  unfolding cat_loop
  cat fuel buf = do
    args ← ece391_getargs buf 1024
    if not (is_zero args)
        then (do puts_literal c "could not read arguments\n"; give (pos 3))
        else do
          fd ← ece391_open buf
          if failed fd
              then (do puts_literal c "file not found\n"; give (pos 2))
              else cat_loop fuel fd buf

  -- The loop of ls; the array has SBUFSIZE bytes.
  unfoldable pub ls_loop : ℕ → ℤ → ℕ → Run W ℤ
  unfolding store
  ls_loop zero fd buf u = none
  ls_loop (suc fuel) fd buf u =
      (do
        cnt ← ece391_read fd buf 32
        if is_zero cnt
            then give (pos 0)
            else if failed cnt
            then (do puts_literal c "directory entry read failed\n"; give (pos 3))
            else do
              store (at_offset buf cnt) 10
              written ← ece391_write (pos 1) buf (one_more cnt)
              if failed written then give (pos 3) else ls_loop fuel fd buf)
        u

  unfoldable pub ls : ℕ → ℕ → Run W ℤ
  unfolding ls_loop
  ls fuel buf = do
    fd ← ece391_open (c.literal ".")
    if failed fd
        then (do puts_literal c "directory open failed\n"; give (pos 2))
        else ls_loop fuel fd buf

  -- hello: the name is read into the array, and written back behind a greeting.
  unfoldable pub hello : ℕ → Run W ℤ
  unfolding store
  hello buf = do
    puts_literal c "Hi, what's your name? "
    cnt ← ece391_read (pos 0) buf 1023
    if failed cnt then (do puts_literal c "Can't read name from keyboard.\n"; give (pos 3)) else do
      store (at_offset buf cnt) 0
      puts_literal c "Hello, "
      fdputs c (pos 1) buf
      give (pos 0)

  unfoldable pub testprint : Run W ℤ
  testprint = do puts_literal c "Hello, if this ran, the program was correct. Yay!\n"; give (pos 0)

  -- A newline at the end of the `cnt` bytes is not counted.
  unfoldable pub trimmed : ℕ → ℤ → Run W ℤ
  trimmed buf (pos zero) = give (pos 0)
  trimmed buf (pos (suc k)) = do
    last ← load (buf + k)
    give (if last == 10 then pos k else pos (suc k))
  trimmed buf (negsuc k) = give (negsuc k)

  -- What the shell says about the status of a program.
  unfoldable pub report : ℤ → Run W (Unit {0})
  report rval =
      if failed rval
      then puts_literal c "no such command\n"
      else if is_number rval 256
      then puts_literal c "program terminated by exception\n"
      else if not (is_zero rval)
      then puts_literal c "program terminated abnormally\n"
      else give tt

  unfoldable pub shell_loop : ℕ → ℕ → Run W ℤ
  unfolding store trimmed
  shell_loop zero buf u = none
  shell_loop (suc fuel) buf u =
      (do
        puts_literal c "391OS> "
        cnt ← ece391_read (pos 0) buf 1023
        if failed cnt then (do puts_literal c "read from keyboard failed\n"; give (pos 3)) else do
          end ← trimmed buf cnt
          store (at_offset buf end) 0
          verdict ← compare_strings c buf (c.literal "exit")
          first ← load buf
          if is_zero verdict
              then give (pos 0)
              else if first == 0
              then shell_loop fuel buf
              else do rval ← ece391_execute buf; report rval; shell_loop fuel buf)
        u

  unfoldable pub shell : ℕ → ℕ → Run W ℤ
  unfolding shell_loop
  shell fuel buf = do puts_literal c "Starting 391 Shell\n"; shell_loop fuel buf

  -- The loop of counter, with the rounds that are left.
  unfoldable pub count_from : ℕ → ℕ → ℕ → Run W (Unit {0})
  count_from zero i buf = give tt
  count_from (suc rounds) i buf = do
    convert (i + 1) buf
    fdputs c (pos 1) buf
    puts_literal c "\n"
    count_from rounds (i + 1) buf

  unfoldable pub counter : ℕ → Run W ℤ
  unfolding store
  counter buf = do
    puts_literal c "Enter the Test Number: (0): 100, (1): 10000, (2): 100000\n"
    cnt ← ece391_read (pos 0) buf 1023
    if failed cnt
        then (do puts_literal c "Can't read the number from keyboard.\n"; give (pos 3))
        else do
          store (at_offset buf cnt) 0
          len ← string_length c buf
          first ← load buf
          if wrong_choice len first
              then (do puts_literal c "Wrong Choice!\n"; give (pos 0))
              else do count_from (count_limit first) 0 buf; give (pos 0)
