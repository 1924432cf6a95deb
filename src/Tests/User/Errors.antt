-- ===== src/Tests/User/Errors.antt =====
-- The tests of syserr.c on the kernel with three terminals.
use Prim.Native.String.{String}
use ece391_os.Common.{
  ℕ, ◌+◌, ◌*◌, ◌/◌, ◌%◌, ◌<◌, ◌≢◌, ◌≡◌, refl, inl, arith, ◌==◌, if◌then◌else◌, List, [], ◌∷◌,
  length, get_or, minus_one,
}
use ece391_os.CString.{codes}
use ece391_os.Memory.{Mem}
use ece391_os.Print.Format.{IsPlain}
use ece391_os.Process.Calls.{system_call}
use ece391_os.User.Calls.{bytes, give}
use ece391_os.User.Console.{NoNul, bytes_are-IsText}
use ece391_os.User.Kernel.{Services, kernel_calls}
use ece391_os.User.Errors.{
  err_neg_fd, err_big_fd, err_unopened, err_vidmap, err_stdin_out, err_syscall_num,
}
use ece391_os.User.Errors.Passes.{IsLine, IsReady, Passes, AreLines, kernel-Passes}
use ece391_os.Tests.Paging.{empty}
use ece391_os.Tests.Scheduler.{quiet}
use ece391_os.Tests.Screen.{top_left-OnScreen}
use ece391_os.Tests.Terminal.{three}

-- A line stands where its fifth and sixth characters say.
abbrev key : List ℕ → ℕ
key cs = get_or cs 4 0 + get_or cs 5 0

abbrev last_lines : List String
last_lines =
    "err_neg_fd: PASS\n" ∷ "err_big_fd: PASS\n" ∷ "err_unopened: PASS\n" ∷ "err_vidmap: PASS\n"
    ∷ "err_stdin_out: PASS\n" ∷ "err_syscall_num: PASS\n" ∷ []

abbrev with_key : ℕ → List String → List ℕ
with_key n [] = []
with_key n (t ∷ ts) = if key (codes t) == n then codes t else with_key n ts

abbrev line_memory : Mem
line_memory b = get_or (with_key (b / 100) last_lines) (b % 100) 0

-- The devices fail.
abbrev services : Services
services = record {
  terminal_read = λ fd buf n. give minus_one;
  rtc_read = λ fd buf n. give minus_one;
  directory_read = λ fd buf n. give minus_one;
  file_read = λ fd buf n. give minus_one;
  rtc_write = λ fd buf n. give minus_one;
  execute = λ a. give minus_one;
  file_system = 0;
  dir_entry = 0;
  cur_name = 0;
  a_old = 0x26;
  argbuf = 0;
  depth = 3;
  conv_buf = 50000;
  args = [];
  literal = λ t. key (codes t) * 100;
  chars = 64;
}

services-IsReady : IsReady services three
services-IsReady = record {
  shown = refl;
  on_screen = top_left-OnScreen;
  depth = omega arith;
  chars = omega arith;
  args = tt;
}

IsLine-at :
    (t : String)
    → bytes line_memory (key (codes t) * 100) (length (codes t)) ≡ codes t
    → NoNul (codes t)
    → line_memory (key (codes t) * 100 + length (codes t)) ≡ 0
    → key (codes t) * 100 ≢ 0
    → IsPlain (codes t)
    → length (codes t) < 64
    → key (codes t) * 100 + length (codes t) < 50000
    → IsLine services line_memory t
IsLine-at t here clean nul somewhere plain short before = record {
  stands = bytes_are-IsText line_memory (key (codes t) * 100) (codes t) here clean nul;
  somewhere = somewhere;
  plain = plain;
  short = short;
  apart = inl before;
}

lines-AreLines : AreLines services line_memory
lines-AreLines = (
  IsLine-at "err_neg_fd: PASS\n" refl (omega arith) refl (omega arith) (omega arith) (omega arith)
      (omega arith),
  IsLine-at "err_big_fd: PASS\n" refl (omega arith) refl (omega arith) (omega arith) (omega arith)
      (omega arith),
  IsLine-at "err_unopened: PASS\n" refl (omega arith) refl (omega arith) (omega arith) (omega arith)
      (omega arith),
  IsLine-at "err_vidmap: PASS\n" refl (omega arith) refl (omega arith) (omega arith) (omega arith)
      (omega arith),
  IsLine-at "err_stdin_out: PASS\n" refl (omega arith) refl (omega arith) (omega arith)
      (omega arith) (omega arith),
  IsLine-at "err_syscall_num: PASS\n" refl (omega arith) refl (omega arith) (omega arith)
      (omega arith) (omega arith),
)

kernel-Passes_example :
    Passes services line_memory quiet empty three
      (err_neg_fd (kernel_calls services) 8000)
      "err_neg_fd: PASS\n"
    × Passes services line_memory quiet empty three
        (err_big_fd (kernel_calls services) 8000)
        "err_big_fd: PASS\n"
    × Passes services line_memory quiet empty three
        (err_unopened (kernel_calls services) 8000)
        "err_unopened: PASS\n"
    × Passes services line_memory quiet empty three
        (err_vidmap (kernel_calls services))
        "err_vidmap: PASS\n"
    × Passes services line_memory quiet empty three
        (err_stdin_out (kernel_calls services) 8000)
        "err_stdin_out: PASS\n"
    × Passes services line_memory quiet empty three
        (err_syscall_num (kernel_calls services) (system_call (λ n. give minus_one)))
        "err_syscall_num: PASS\n"
kernel-Passes_example =
    kernel-Passes services line_memory quiet empty three services-IsReady 8000 (λ n. give minus_one)
      lines-AreLines
