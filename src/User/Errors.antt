-- ===== src/User/Errors.antt =====
-- The program syscalls/ece391syserr.c: tests of the system calls with arguments that they have to
-- refuse. A test gives 0 if every call fails as it should, and 2 if one does not.
pub mod Refusals
pub mod Passes
use Prim.Native.String.{String}
use ece391_os.Common.{ℕ, zero, suc, ◌+◌, ◌==◌, if◌then◌else◌, ℤ, pos, negsuc, sub_ℕ}
use ece391_os.User.Calls.{Run, ◌>>=◌, ◌>>◌, give, load, Calls, puts_literal, failed, is_number}

-- NEG_FD and NEG_NUM, BIG_FD and BIG_NUM.
abbrev pub neg_fd : ℤ
neg_fd = negsuc 1073741822

abbrev pub big_fd : ℤ
big_fd = pos 1073741823

module _ {W : Type 0} (c : Calls W) where
  open c use {ece391_read, ece391_write, ece391_open, ece391_close, ece391_vidmap, literal}

  -- if (-1 != call) { fail = 2; ece391_fdputs (1, text); }
  unfoldable pub refused : Run W ℤ → String → ℕ → Run W ℕ
  refused call text fail = do
    r ← call
    if failed r then give fail else do puts_literal c text; give 2

  -- The line at the end of a test, and its result.
  unfoldable pub verdict : String → String → ℕ → Run W ℕ
  verdict bad good fail = do
    if fail == 0 then puts_literal c good else puts_literal c bad
    give fail

  unfoldable pub err_neg_fd : ℕ → Run W ℕ
  err_neg_fd buf = do
    fail1 ← refused (ece391_read neg_fd buf 31) "read fail\n" 0
    fail2 ← refused (ece391_write neg_fd buf (pos 31)) "write fail\n" fail1
    fail3 ← refused (ece391_close neg_fd) "close fail\n" fail2
    verdict "err_neg_fd: FAIL\n" "err_neg_fd: PASS\n" fail3

  unfoldable pub err_big_fd : ℕ → Run W ℕ
  err_big_fd buf = do
    fail1 ← refused (ece391_read big_fd buf 31) "read fail\n" 0
    fail2 ← refused (ece391_write big_fd buf (pos 31)) "write fail\n" fail1
    fail3 ← refused (ece391_close big_fd) "close fail\n" fail2
    verdict "err_big_fd: FAIL\n" "err_big_fd: PASS\n" fail3

  -- The first loop of err_open_lots, with the rounds that are left: how many calls have failed.
  unfoldable pub open_lots : ℕ → ℕ → Run W ℕ
  open_lots zero cnt = give cnt
  open_lots (suc rounds) cnt = do
    r ← ece391_open (literal ".")
    open_lots rounds (if failed r then cnt + 1 else cnt)

  -- The second.
  unfoldable pub close_lots : ℕ → ℕ → Run W (Unit {0})
  close_lots zero i = give tt
  close_lots (suc rounds) i = do r ← ece391_close (pos i); close_lots rounds (i + 1)

  unfoldable pub err_open_lots : Run W ℕ
  unfolding open_lots close_lots
  err_open_lots = do
    cnt ← open_lots 7 0
    close_lots 6 2
    if cnt == 1
        then (do puts_literal c "err_open_lots: PASS\n"; give 0)
        else do puts_literal c "err_open_lots: FAIL\n"; give 2

  unfoldable pub err_open : Run W ℕ
  err_open = do
    fail1 ← refused (ece391_open (literal "helloo")) "'helloo' fail\n" 0
    fail2 ← refused (ece391_open (literal "shel")) "'shel' fail\n" fail1
    fail3 ← refused (ece391_open (literal "")) "empty string fail\n" fail2
    verdict "err_open: FAIL\n" "err_open: PASS\n" fail3

  -- A loop of err_unopened over the descriptors from `i` on.
  unfoldable pub refused_from : (ℤ → Run W ℤ) → String → ℕ → ℕ → ℕ → Run W ℕ
  refused_from call text zero i fail = give fail
  refused_from call text (suc rounds) i fail = do
    fail' ← refused (call (pos i)) text fail
    refused_from call text rounds (i + 1) fail'

  unfoldable pub err_unopened : ℕ → Run W ℕ
  unfolding refused_from
  err_unopened buf = do
    fail1 ← refused_from ece391_close "close unopened or invalid fd fail\n" 8 0 0
    fail2 ← refused_from (λ fd. ece391_read fd buf 31) "read from unopened fd fail\n" 6 2 fail1
    fail3 ←
        refused_from (λ fd. ece391_write fd buf (pos 31)) "write to unopened fd fail\n" 6 2 fail2
    verdict "err_unopened: FAIL\n" "err_unopened: PASS\n" fail3

  unfoldable pub err_vidmap : Run W ℕ
  err_vidmap = do
    fail1 ← refused (ece391_vidmap 0) "Null pointer fail\n" 0
    fail2 ← refused (ece391_vidmap 0x400000) "Kernel pointer fail fail\n" fail1
    verdict "err_vidmap: FAIL\n" "err_vidmap: PASS\n" fail2

  unfoldable pub err_stdin_out : ℕ → Run W ℕ
  err_stdin_out buf = do
    fail1 ← refused (ece391_write (pos 0) buf (pos 31)) "write to stdin fail\n" 0
    fail2 ← refused (ece391_read (pos 1) buf 31) "read from stdout fail\n" fail1
    verdict "err_stdin_out: FAIL\n" "err_stdin_out: PASS\n" fail2

  -- `call_sys` is the instruction int $0x80 with a number in %eax.
  module _ (call_sys : ℤ → Run W ℤ) where
    unfoldable pub err_syscall_num : Run W ℕ
    err_syscall_num = do
      fail1 ← refused (call_sys big_fd) "syscall 0 fail\n" 0
      fail2 ← refused (call_sys neg_fd) "big num syscall fail\n" fail1
      fail3 ← refused (call_sys (pos 0)) "neg num syscall fail\n" fail2
      verdict "err_syscall_num: FAIL\n" "err_syscall_num: PASS\n" fail3

    -- All the tests; `buf` is where the arrays of the tests are.
    unfoldable pub run_all : ℕ → Run W ℕ
    run_all buf = do
      fail1 ← err_neg_fd buf
      fail2 ← err_big_fd buf
      fail3 ← err_open_lots
      fail4 ← err_open
      fail5 ← err_unopened buf
      fail6 ← err_vidmap
      fail7 ← err_stdin_out buf
      fail8 ← err_syscall_num
      let fail = fail1 + fail2 + fail3 + fail4 + fail5 + fail6 + fail7 + fail8
      if fail == 0
          then puts_literal c "\nOverall Tests: PASS\n"
          else puts_literal c "\nOverall Tests: FAIL\n"
      give fail

    -- The switch on the character that was typed.
    unfoldable pub select_test : ℤ → ℕ → Run W ℕ
    select_test select buf =
        if is_number select 0
        then run_all buf
        else if is_number select 1
        then err_neg_fd buf
        else if is_number select 2
        then err_big_fd buf
        else if is_number select 3
        then err_open_lots
        else if is_number select 4
        then err_open
        else if is_number select 5
        then err_unopened buf
        else if is_number select 6
        then err_vidmap
        else if is_number select 7
        then err_stdin_out buf
        else if is_number select 8
        then err_syscall_num
        else do puts_literal c "Invalid test number. Choose from tests 1-8 or 0"; give 0

    unfoldable pub syserr : ℕ → ℕ → Run W ℕ
    syserr line buf = do
      puts_literal c "Choose from tests 1-8. 0 to run all: "
      cnt ← ece391_read (pos 0) line 127
      if failed cnt
          then (do puts_literal c "Can't read test #\n"; give 2)
          else do first ← load line; select_test (sub_ℕ first 48) buf
