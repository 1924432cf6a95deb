-- ===== src/User/Errors/Passes.antt =====
-- The kernel passes the tests of syserr.c that open no file: sys_read, sys_write, sys_close, vidmap and
-- the table of system calls refuse what they have to, and terminal_write shows the verdict.
use Prim.Native.String.{String}
use ece391_os.Common.{
  ℕ, ◌+◌, ◌<◌, ◌≤◌, ◌≡◌, ◌≢◌, ◌⊎◌, refl, ap, arith, ne→==, some, length, minus_one, zero, suc, ℤ,
  pos,
}
use ece391_os.CString.{codes}
use ece391_os.Memory.{Mem}
use ece391_os.Print.Format.{Agree, AreWords, IsPlain}
use ece391_os.Print.Text.{IsText}
use ece391_os.Screen.Output.{printed_all}
use ece391_os.Screen.Cursor.{OnScreen}
use ece391_os.Devices.Rtc.{Rtc}
use ece391_os.Paging.{Paging}
use ece391_os.Terminal.{Terminals}
use ece391_os.Terminal.Write.{terminal_write-printed_all}
use ece391_os.Process.Calls.{sys_write, table_write, system_call}
use ece391_os.User.Calls.{Calls, Machine, Run, puts_literal}
use ece391_os.User.Console.{fdputs-write}
use ece391_os.User.Kernel.{Served, Services, kernel_calls, kernel_write, written}
use ece391_os.User.Errors.Refusals.{
  machine, read_neg, write_neg, close_neg, read_big, write_big, close_big, read_stdout, write_stdin,
  read_free, write_free, close_any, call_big, call_neg, call_zero, vidmap_null, vidmap_kernel,
  just_started,
}
use ece391_os.User.Errors.{
  refused, refused_from, verdict, neg_fd, big_fd, err_neg_fd, err_big_fd, err_unopened, err_vidmap,
  err_stdin_out, err_syscall_num,
}

-- The terminals with text shown.
abbrev pub with_text : String → Terminals → Terminals
with_text t s = record s { screen = printed_all (codes t) s.screen }

-- A literal that terminal_write shows as it is.
pub record IsLine (k : Services) (m : Mem) (t : String) : Type 0 where
  pub stands : IsText m (k.literal t) (codes t)
  pub somewhere : k.literal t ≢ 0
  pub plain : IsPlain (codes t)
  pub short : length (codes t) < k.chars
  pub apart : (k.literal t + length (codes t) < k.conv_buf) ⊎ (k.conv_buf + 64 ≤ k.literal t)

-- The last line of each of the six tests.
abbrev pub AreLines : Services → Mem → Type 0
AreLines k m =
    IsLine k m "err_neg_fd: PASS\n"
    × IsLine k m "err_big_fd: PASS\n"
    × IsLine k m "err_unopened: PASS\n"
    × IsLine k m "err_vidmap: PASS\n"
    × IsLine k m "err_stdin_out: PASS\n"
    × IsLine k m "err_syscall_num: PASS\n"

-- The terminal is shown, and the kernel's own bounds are wide enough.
pub record IsReady (k : Services) (s : Terminals) : Type 0 where
  pub shown : s.screen.cur_term ≡ s.cur_active
  pub on_screen : OnScreen s.screen
  pub depth : 3 ≤ k.depth
  pub chars : 34 ≤ k.chars
  pub args : AreWords k.args

-- The test gives 0, shows the line `t` and changes nothing else, but for printf's buffer.
abbrev pub Passes : Services → Mem → Rtc → Paging → Terminals → Run Served ℕ → String → Type 0
Passes k m rtc p s test t =
    (m' : Mem) × Agree m m' k.conv_buf
    × (test (just_started m rtc p s) ≡ some (0, just_started m' rtc p (with_text t s)))

-- A call that fails leaves the result of a test as it is.
refused-minus_one :
    {W : Type 0} (c : Calls W) (call : Run W ℤ) (t : String) (fail : ℕ) (u u' : Machine W)
    → call u ≡ some (minus_one, u')
    → refused c call t fail u ≡ some (fail, u')
unfolding refused
refused-minus_one c call t fail u u' e = rw e refl

refused_from-minus_one :
    {W : Type 0} (c : Calls W) (call : ℤ → Run W ℤ) (t : String) (rounds i : ℕ) (u : Machine W)
    → ((j : ℕ) → i ≤ j → j < i + rounds → call (pos j) u ≡ some (minus_one, u))
    → refused_from c call t rounds i 0 u ≡ some (0, u)
unfolding refused_from
refused_from-minus_one c call t zero i u h = refl
refused_from-minus_one c call t (suc rounds) i u h =
    rw (refused-minus_one c (call (pos i)) t 0 u u (h i (omega arith) (omega arith)))
      (refused_from-minus_one c call t rounds (i + 1) u (λ j l b. h j (omega arith) (omega arith)))

module _ (k : Services) (m : Mem) (rtc : Rtc) (p : Paging) (s : Terminals)
    (ready : IsReady k s) where
  -- A line is shown.
  write_line :
      (t : String)
      → IsLine k m t
      → (m' : Mem) × Agree m m' k.conv_buf
        × ((kernel_calls k).ece391_write
              (pos 1)
              (k.literal t)
              (pos (length (codes t)))
              (just_started m rtc p s)
            ≡ some (pos (length (codes t)), just_started m' rtc p (with_text t s)))
  unfolding kernel_calls kernel_write sys_write table_write
  write_line t line =
      let (m', agree, e) =
        terminal_write-printed_all k.depth k.chars k.chars k.conv_buf k.args (pos 1) (k.literal t)
          (pos (length (codes t))) m s (codes t) ready.shown ready.on_screen ready.depth ready.chars
          line.apart line.stands line.short ready.args line.plain in
      (
        m',
        agree,
        rw (ne→== (k.literal t) 0 line.somewhere) (ap (written k (just_started m rtc p s)) e),
      )

  says :
      (t : String)
      → IsLine k m t
      → (m' : Mem) × Agree m m' k.conv_buf
        × (puts_literal (kernel_calls k) t (just_started m rtc p s)
            ≡ some (tt, just_started m' rtc p (with_text t s)))
  unfolding kernel_calls
  says t line =
      let (m', agree, e) = write_line t line in
      (
        m',
        agree,
        fdputs-write (kernel_calls k) (just_started m rtc p s)
            (just_started m' rtc p (with_text t s)) (k.literal t) (codes t) (pos (length (codes t)))
            line.stands line.short e,
      )

  verdict-zero :
      (bad t : String) → IsLine k m t → Passes k m rtc p s (verdict (kernel_calls k) bad t 0) t
  unfolding verdict
  verdict-zero bad t line = let (m', agree, e) = says t line in (m', agree, rw e refl)

  err_neg_fd-Passes :
      (buf : ℕ)
      → IsLine k m "err_neg_fd: PASS\n"
      → Passes k m rtc p s (err_neg_fd (kernel_calls k) buf) "err_neg_fd: PASS\n"
  unfolding err_neg_fd
  err_neg_fd-Passes buf line =
      let (m', agree, e) = verdict-zero "err_neg_fd: FAIL\n" "err_neg_fd: PASS\n" line in
      (
        m',
        agree,
        rw
            (
              refused-minus_one (kernel_calls k) ((kernel_calls k).ece391_read neg_fd buf 31)
                  "read fail\n" 0 (machine k m rtc p s) (machine k m rtc p s)
                  (read_neg k m rtc p s buf),
              refused-minus_one (kernel_calls k) ((kernel_calls k).ece391_write neg_fd buf (pos 31))
                  "write fail\n" 0 (machine k m rtc p s) (machine k m rtc p s)
                  (write_neg k m rtc p s buf),
              refused-minus_one (kernel_calls k) ((kernel_calls k).ece391_close neg_fd)
                  "close fail\n" 0 (machine k m rtc p s) (machine k m rtc p s)
                  (close_neg k m rtc p s),
              e,
            )
            refl,
      )

  err_big_fd-Passes :
      (buf : ℕ)
      → IsLine k m "err_big_fd: PASS\n"
      → Passes k m rtc p s (err_big_fd (kernel_calls k) buf) "err_big_fd: PASS\n"
  unfolding err_big_fd
  err_big_fd-Passes buf line =
      let (m', agree, e) = verdict-zero "err_big_fd: FAIL\n" "err_big_fd: PASS\n" line in
      (
        m',
        agree,
        rw
            (
              refused-minus_one (kernel_calls k) ((kernel_calls k).ece391_read big_fd buf 31)
                  "read fail\n" 0 (machine k m rtc p s) (machine k m rtc p s)
                  (read_big k m rtc p s buf),
              refused-minus_one (kernel_calls k) ((kernel_calls k).ece391_write big_fd buf (pos 31))
                  "write fail\n" 0 (machine k m rtc p s) (machine k m rtc p s)
                  (write_big k m rtc p s buf),
              refused-minus_one (kernel_calls k) ((kernel_calls k).ece391_close big_fd)
                  "close fail\n" 0 (machine k m rtc p s) (machine k m rtc p s)
                  (close_big k m rtc p s),
              e,
            )
            refl,
      )

  err_vidmap-Passes :
      IsLine k m "err_vidmap: PASS\n"
      → Passes k m rtc p s (err_vidmap (kernel_calls k)) "err_vidmap: PASS\n"
  unfolding err_vidmap
  err_vidmap-Passes line =
      let (m', agree, e) = verdict-zero "err_vidmap: FAIL\n" "err_vidmap: PASS\n" line in
      (
        m',
        agree,
        rw
            (
              refused-minus_one (kernel_calls k) ((kernel_calls k).ece391_vidmap 0)
                  "Null pointer fail\n" 0 (machine k m rtc p s) (machine k m rtc p s)
                  (vidmap_null k m rtc p s),
              refused-minus_one (kernel_calls k) ((kernel_calls k).ece391_vidmap 0x400000)
                  "Kernel pointer fail fail\n" 0 (machine k m rtc p s) (machine k m rtc p s)
                  (vidmap_kernel k m rtc p s),
              e,
            )
            refl,
      )

  err_stdin_out-Passes :
      (buf : ℕ)
      → IsLine k m "err_stdin_out: PASS\n"
      → Passes k m rtc p s (err_stdin_out (kernel_calls k) buf) "err_stdin_out: PASS\n"
  unfolding err_stdin_out
  err_stdin_out-Passes buf line =
      let (m', agree, e) = verdict-zero "err_stdin_out: FAIL\n" "err_stdin_out: PASS\n" line in
      (
        m',
        agree,
        rw
            (
              refused-minus_one (kernel_calls k)
                  ((kernel_calls k).ece391_write (pos 0) buf (pos 31)) "write to stdin fail\n" 0
                  (machine k m rtc p s) (machine k m rtc p s) (write_stdin k m rtc p s buf),
              refused-minus_one (kernel_calls k) ((kernel_calls k).ece391_read (pos 1) buf 31)
                  "read from stdout fail\n" 0 (machine k m rtc p s) (machine k m rtc p s)
                  (read_stdout k m rtc p s buf),
              e,
            )
            refl,
      )

  err_unopened-Passes :
      (buf : ℕ)
      → IsLine k m "err_unopened: PASS\n"
      → Passes k m rtc p s (err_unopened (kernel_calls k) buf) "err_unopened: PASS\n"
  unfolding err_unopened
  err_unopened-Passes buf line =
      let (m', agree, e) = verdict-zero "err_unopened: FAIL\n" "err_unopened: PASS\n" line in
      (
        m',
        agree,
        rw
            (
              refused_from-minus_one (kernel_calls k) ((kernel_calls k).ece391_close)
                  "close unopened or invalid fd fail\n" 8 0 (machine k m rtc p s)
                  (λ j l b. close_any k m rtc p s j b),
              refused_from-minus_one (kernel_calls k) (λ fd. (kernel_calls k).ece391_read fd buf 31)
                  "read from unopened fd fail\n" 6 2 (machine k m rtc p s)
                  (λ j l b. read_free k m rtc p s buf j l b),
              refused_from-minus_one (kernel_calls k)
                  (λ fd. (kernel_calls k).ece391_write fd buf (pos 31))
                  "write to unopened fd fail\n" 6 2 (machine k m rtc p s)
                  (λ j l b. write_free k m rtc p s buf j l b),
              e,
            )
            refl,
      )

  err_syscall_num-Passes :
      (call : ℕ → Run Served ℤ)
      → IsLine k m "err_syscall_num: PASS\n"
      → Passes k m rtc p s
          (err_syscall_num (kernel_calls k) (system_call call))
          "err_syscall_num: PASS\n"
  unfolding err_syscall_num
  err_syscall_num-Passes call line =
      let (m', agree, e) = verdict-zero "err_syscall_num: FAIL\n" "err_syscall_num: PASS\n" line in
      (
        m',
        agree,
        rw
            (
              refused-minus_one (kernel_calls k) (system_call call big_fd) "syscall 0 fail\n" 0
                  (machine k m rtc p s) (machine k m rtc p s) (call_big k m rtc p s call),
              refused-minus_one (kernel_calls k) (system_call call neg_fd) "big num syscall fail\n"
                  0 (machine k m rtc p s) (machine k m rtc p s) (call_neg k m rtc p s call),
              refused-minus_one (kernel_calls k) (system_call call (pos 0)) "neg num syscall fail\n"
                  0 (machine k m rtc p s) (machine k m rtc p s) (call_zero k m rtc p s call),
              e,
            )
            refl,
      )

  -- For a program that has just been started on the shown terminal, the kernel passes the six tests of
  -- syserr.c that open no file: every call with a bad descriptor, a bad pointer or a bad number is
  -- refused, whatever the devices do, and the test gives 0 and shows that it has passed, and changes
  -- nothing else but printf's buffer. The cursor is on the screen, the kernel's bounds are wide enough,
  -- and the lines stand in memory at addresses other than 0 and apart from printf's buffer.
  pub kernel-Passes :
      (buf : ℕ) (call : ℕ → Run Served ℤ)
      → AreLines k m
      → Passes k m rtc p s (err_neg_fd (kernel_calls k) buf) "err_neg_fd: PASS\n"
        × Passes k m rtc p s (err_big_fd (kernel_calls k) buf) "err_big_fd: PASS\n"
        × Passes k m rtc p s (err_unopened (kernel_calls k) buf) "err_unopened: PASS\n"
        × Passes k m rtc p s (err_vidmap (kernel_calls k)) "err_vidmap: PASS\n"
        × Passes k m rtc p s (err_stdin_out (kernel_calls k) buf) "err_stdin_out: PASS\n"
        × Passes k m rtc p s
            (err_syscall_num (kernel_calls k) (system_call call))
            "err_syscall_num: PASS\n"
  kernel-Passes buf call (neg, big, unopened, mapped, standard, number) = (
    err_neg_fd-Passes buf neg,
    err_big_fd-Passes buf big,
    err_unopened-Passes buf unopened,
    err_vidmap-Passes mapped,
    err_stdin_out-Passes buf standard,
    err_syscall_num-Passes call number,
  )
