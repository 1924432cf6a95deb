-- ===== src/Tests/User/Shell.antt =====
-- The shell on the kernel with three terminals, where "ls" and enter have been typed.
use Prim.Native.String.{String}
use ece391_os.Common.{
  ℕ, suc, ◌+◌, ◌*◌, ◌/◌, ◌%◌, ◌≢◌, ◌<◌, ◌≤◌, ◌≡◌, ◌⊎◌, refl, ap₂, ◌∙◌, false, inl, inr, arith, ◌==◌,
  if◌then◌else◌, List, [], ◌∷◌, length, get_or, min, leb, ltb, ◌&&◌, replicate, pos, minus_one,
}
use ece391_os.CString.{codes}
use ece391_os.Memory.{Mem, upd}
use ece391_os.Terminal.Read.{read_keys, terminal_read, read_keys_lem}
use ece391_os.Print.Format.{IsPlain}
use ece391_os.Print.Text.{IsText}
use ece391_os.User.Calls.{Machine, bytes, give}
use ece391_os.User.Console.{NoNul, bytes_are-IsText}
use ece391_os.User.Kernel.{Served, Services, kernel_calls}
use ece391_os.User.Output.{
  IsQuoted, IsQuoted-kept, Answers, answer_kept, with_output, with_output-Listens,
}
use ece391_os.User.Programs.{shell_loop}
use ece391_os.User.Programs.Shell.{AreQuoted, Round, shell_loop-Round}
use ece391_os.Tests.Screen.{top_left}
use ece391_os.Tests.User.Output.{told, served, served-Listens}

-- A literal stands where its length says.
abbrev of_length : ℕ → List ℕ
of_length n =
    if n == 7
    then codes "391OS> "
    else if n == 4
    then codes "exit"
    else if n == 16
    then codes "no such command\n"
    else if n == 32
    then codes "program terminated by exception\n"
    else if n == 30
    then codes "program terminated abnormally\n"
    else []

abbrev shell_memory : Mem
shell_memory b = get_or (of_length (b / 100)) (b % 100) 0

abbrev line : List ℕ
line = codes "ls\n"

-- The kernel's terminal_read on a keyboard that has the line; execute comes back with 0.
abbrev running : Services
running = record {
  terminal_read = λ fd buf n u. told u (
      terminal_read u.memory buf n (record {
        screen = top_left;
        key_buffer = 108 ∷ 115 ∷ 10 ∷ replicate 125 0;
        key_buffer_idx = 3;
        keyboard_enabled = 1;
        eflag = 1;
      }));
  rtc_read = λ fd buf n. give minus_one;
  directory_read = λ fd buf n. give minus_one;
  file_read = λ fd buf n. give minus_one;
  rtc_write = λ fd buf n. give minus_one;
  execute = λ a. give (pos 0);
  file_system = 0;
  dir_entry = 0;
  cur_name = 0;
  a_old = 0x26;
  argbuf = 0;
  depth = 3;
  conv_buf = 50000;
  args = [];
  literal = λ t. length (codes t) * 100;
  chars = 64;
}

literal-IsQuoted :
    (t : String)
    → bytes shell_memory (length (codes t) * 100) (length (codes t)) ≡ codes t
    → NoNul (codes t)
    → shell_memory (length (codes t) * 100 + length (codes t)) ≡ 0
    → length (codes t) * 100 ≢ 0
    → IsPlain (codes t)
    → length (codes t) < 64
    → length (codes t) * 100 + length (codes t) < 5000
    → IsQuoted running shell_memory 5000 t
literal-IsQuoted t here clean nul somewhere plain short before = record {
  stands = bytes_are-IsText shell_memory (length (codes t) * 100) (codes t) here clean nul;
  somewhere = somewhere;
  plain = plain;
  short = short;
  apart = inl before;
}

shell-AreQuoted : AreQuoted running shell_memory 5000
shell-AreQuoted = record {
  prompt =
      literal-IsQuoted "391OS> " refl (omega arith) refl (omega arith) (omega arith) (omega arith)
        (omega arith);
  exit =
      literal-IsQuoted "exit" refl (omega arith) refl (omega arith) (omega arith) (omega arith)
        (omega arith);
  missing =
      literal-IsQuoted "no such command\n" refl (omega arith) refl (omega arith) (omega arith)
        (omega arith) (omega arith);
  broken =
      literal-IsQuoted "program terminated by exception\n" refl (omega arith) refl (omega arith)
        (omega arith) (omega arith) (omega arith);
  abnormal =
      literal-IsQuoted "program terminated abnormally\n" refl (omega arith) refl (omega arith)
        (omega arith) (omega arith) (omega arith);
}

AreQuoted-kept :
    (m : Mem)
    → ((b : ℕ) → (b < 5000) ⊎ (5000 + 1024 ≤ b) → m b ≡ shell_memory b)
    → AreQuoted running m 5000
AreQuoted-kept m kept = record {
  prompt = IsQuoted-kept kept shell-AreQuoted.prompt;
  exit = IsQuoted-kept kept shell-AreQuoted.exit;
  missing = IsQuoted-kept kept shell-AreQuoted.missing;
  broken = IsQuoted-kept kept shell-AreQuoted.broken;
  abnormal = IsQuoted-kept kept shell-AreQuoted.abnormal;
}

abbrev heard : ℕ × Mem
heard = read_keys 127 (108 ∷ 115 ∷ 10 ∷ replicate 125 0) shell_memory 5000 1022 0

abbrev ready : Machine Served
ready = record { memory = shell_memory; world = served }

abbrev prompted : Machine Served
prompted = record { memory = heard.1; world = with_output (codes "391OS> ") served }

prompted-Answers : Answers shell_memory 5000 line 127 prompted
prompted-Answers =
    let got = read_keys_lem 127 (108 ∷ 115 ∷ 10 ∷ replicate 125 0) shell_memory 5000 1022 0 in
    record {
      here = ap₂ (λ x xs. x ∷ xs) (got 5000).1 (ap₂ (λ x y. x ∷ y ∷ []) (got 5001).1 (got 5002).1);
      clean = omega arith;
      low = omega arith;
      high = omega arith;
      ended = inr ((got 5003).1);
      kept = λ b out.
          let behind : (leb (5000 + 0) b && ltb b (5000 + min 1022 (0 + 127))) ≡ false =
            ground arith in
          (got b).1 ∙ rw behind refl;
      listens = with_output-Listens (codes "391OS> ") served served-Listens;
    }

abbrev ran : Machine Served
ran = record prompted { memory = upd heard.1 5127 0 }

ls-Round : Round running (omega arith) 5000 (omega arith) ready line ran
unfolding terminal_read
ls-Round =
    let got = read_keys_lem 127 (108 ∷ 115 ∷ 10 ∷ replicate 125 0) shell_memory 5000 1022 0 in
    record {
      count = 126;
      answered = prompted;
      status = pos 0;
      back = ran;
      listens = served-Listens;
      literals = shell-AreQuoted;
      read = rw (got 0).0 refl;
      answers = prompted-Answers;
      no_newline = omega arith;
      something = omega arith;
      short = omega arith;
      no_exit = ground arith;
      executes = refl;
      hears = with_output-Listens (codes "391OS> ") served served-Listens;
      keeps =
          AreQuoted-kept ran.memory
            (λ b out. answer_kept shell_memory 5000 127 b line prompted prompted-Answers out);
      shows = refl;
    }

shell_loop-Round_example :
    (shell_loop (kernel_calls running) 5 5000 ready ≡ shell_loop (kernel_calls running) 4 5000 ran)
    × IsText (upd ls-Round.answered.memory (5000 + suc ls-Round.count) 0) 5000 line
shell_loop-Round_example =
    shell_loop-Round running (omega arith) 5000 (omega arith) 4 ready ran line ls-Round
