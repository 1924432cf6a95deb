-- ===== src/Tests/User/Output.antt =====
-- counter and hello on the kernel with three terminals, where "0" and enter have been typed.
use Prim.Native.String.{String}
use ece391_os.Common.{
  ℕ, ◌+◌, ◌/◌, ◌%◌, ◌≡◌, refl, ap₂, ◌∙◌, false, inl, inr, arith, ◌==◌, if◌then◌else◌, Option, none,
  some, List, [], ◌∷◌, length, get_or, min, leb, ltb, ◌&&◌, replicate, ℤ, pos, minus_one,
}
use ece391_os.CString.{codes}
use ece391_os.Memory.{Mem, upd}
use ece391_os.Keyboard.{Console}
use ece391_os.Terminal.Read.{read_keys, terminal_read, read_keys_lem}
use ece391_os.Process.Descriptors.{new_fds}
use ece391_os.User.Calls.{Machine, give}
use ece391_os.User.Console.{bytes_are-IsText}
use ece391_os.User.Kernel.{Served, Services, kernel_calls}
use ece391_os.User.Programs.{hello}
use ece391_os.User.Programs.Hello.{hello-greets}
use ece391_os.User.Programs.Counter.{question}
use ece391_os.User.Output.{Listens, IsQuoted, Answers, with_output, with_output-Listens}
use ece391_os.Tests.Paging.{empty}
use ece391_os.Tests.Scheduler.{quiet}
use ece391_os.Tests.Screen.{top_left, top_left-OnScreen}
use ece391_os.Tests.Terminal.{three}

-- What stands where: counter's question, its newline, and what hello says.
abbrev placed : ℕ → List ℕ
placed page =
    if page == 10
    then codes question
    else if page == 20
    then codes "\n"
    else if page == 30
    then codes "Hi, what's your name? "
    else if page == 40
    then codes "Hello, "
    else []

abbrev quoted_memory : Mem
quoted_memory b = get_or (placed (b / 100)) (b % 100) 0

abbrev place : ℕ → ℕ
place n = if n == 1 then 2000 else if n == 22 then 3000 else if n == 7 then 4000 else 1000

-- The keyboard when enter has been pressed.
abbrev typed : Console
typed = record {
  screen = top_left;
  key_buffer = 48 ∷ 10 ∷ replicate 126 0;
  key_buffer_idx = 2;
  keyboard_enabled = 1;
  eflag = 1;
}

abbrev pub told : Machine Served → Option (ℤ × Mem × Console) → Option (ℤ × Machine Served)
told u none = none
told u (some (r, m, c)) = some (r, record u { memory = m })

-- The kernel's terminal_read on that keyboard; the other devices fail.
abbrev hearing : Services
hearing = record {
  terminal_read = λ fd buf n u. told u (terminal_read u.memory buf n typed);
  rtc_read = λ fd buf n. give minus_one;
  directory_read = λ fd buf n. give minus_one;
  file_read = λ fd buf n. give minus_one;
  rtc_write = λ fd buf n. give minus_one;
  execute = λ a. give minus_one;
  file_system = 0;
  dir_entry = 0;
  cur_name = 0;
  a_old = 0x26;
  argbuf = 0;
  depth = 3;
  conv_buf = 50000;
  args = [];
  literal = λ t. place (length (codes t));
  chars = 64;
}

abbrev pub served : Served
served = record { fds = new_fds; rtc = quiet; paging = empty; terminals = three }

pub served-Listens : Listens served
served-Listens = record {
  in_use = (refl, refl);
  keyboard = refl;
  screen = refl;
  shown = refl;
  on_screen = top_left-OnScreen;
}

abbrev counting : Machine Served
counting = record { memory = quoted_memory; world = served }

hi-IsQuoted : IsQuoted hearing quoted_memory 5000 "Hi, what's your name? "
hi-IsQuoted = record {
  stands =
      bytes_are-IsText quoted_memory 3000 (codes "Hi, what's your name? ") refl (omega arith) refl;
  somewhere = omega arith;
  plain = omega arith;
  short = omega arith;
  apart = inl (omega arith);
}

hello-IsQuoted : IsQuoted hearing quoted_memory 5000 "Hello, "
hello-IsQuoted = record {
  stands = bytes_are-IsText quoted_memory 4000 (codes "Hello, ") refl (omega arith) refl;
  somewhere = omega arith;
  plain = omega arith;
  short = omega arith;
  apart = inl (omega arith);
}

-- The machine when the read behind a prompt comes back.
abbrev answered : String → Machine Served
answered prompt = record {
  memory = (read_keys 127 (48 ∷ 10 ∷ replicate 126 0) quoted_memory 5000 1022 0).1;
  world = with_output (codes prompt) served;
}

abbrev count : ℕ
count = (read_keys 127 (48 ∷ 10 ∷ replicate 126 0) quoted_memory 5000 1022 0).0

answered-Answers :
    (prompt : String) → Answers quoted_memory 5000 (48 ∷ 10 ∷ []) count (answered prompt)
answered-Answers prompt =
    let got = read_keys_lem 127 (48 ∷ 10 ∷ replicate 126 0) quoted_memory 5000 1022 0 in
    record {
      here = ap₂ (λ x y. x ∷ y ∷ []) (got 5000).1 (got 5001).1;
      clean = omega arith;
      low = rw (got 5000).0 (omega arith);
      high = rw (got 5000).0 (omega arith);
      ended = inr ((got 5002).1);
      kept = λ b out.
          let behind : (leb (5000 + 0) b && ltb b (5000 + min 1022 (0 + 127))) ≡ false =
            ground arith in
          (got b).1 ∙ rw behind refl;
      listens = with_output-Listens (codes prompt) served served-Listens;
    }

hello-greets_example :
    hello (kernel_calls hearing) 5000 counting
    ≡ some (
      pos 0,
      record {
        memory = upd (answered "Hi, what's your name? ").memory (5000 + count) 0;
        world = with_output (codes "Hello, 0\n") (answered "Hi, what's your name? ").world;
      },
    )
unfolding terminal_read
hello-greets_example =
    hello-greets hearing 5000 count counting (answered "Hi, what's your name? ") (48 ∷ 10 ∷ [])
      (omega arith) served-Listens hi-IsQuoted hello-IsQuoted (omega arith) refl
      (answered-Answers "Hi, what's your name? ") (omega arith) (omega arith)
