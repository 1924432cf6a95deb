-- ===== src/Tests/Process.antt =====
-- Starting and ending processes on the first terminal (syscalls.c), and an exception (idt.c).
use ece391_os.Common.{
  ℕ, zero, suc, ◌-◌, ◌<◌, ◌≤◌, ◌≡◌, refl, inl, inr, arith, ◌==◌, if◌then◌else◌, some, List, [], ◌∷◌,
  get_or, pos, Holds,
}
use ece391_os.Memory.{Mem}
use ece391_os.Memory.{load32}
use ece391_os.Memory.Copy.{copied}
use ece391_os.Print.Text.{IsText}
use ece391_os.FileSystem.Data.{read_data_lem}
use ece391_os.Tests.FileSystem.{image, image-IsFile}
use ece391_os.Tests.Scheduler.{quiet}
use ece391_os.Screen.{blue_screen}
use ece391_os.Screen.Cursor.{OnScreen}
use ece391_os.Screen.Output.{printed_all}
use ece391_os.Interrupts.{page_fault}
use ece391_os.Interrupts.Exceptions.{Stopped, exception, exception-Stopped}
use ece391_os.Terminal.{Term, show}
use ece391_os.Process.Descriptors.{new_fds, desc}
use ece391_os.Process.Kernel.{ProcessBlock, Kernel, Call, entered, resumed, argbuf_at}
use ece391_os.Process.Execute.{execute, start_process, loaded}
use ece391_os.Process.Halt.{halt}
use ece391_os.Process.Stacks.{occurrences, total, push, pop, IsChain, IsTop}
use ece391_os.Process.Start.{Refines, start_process-push}
use ece391_os.Process.Effect.{Effect, execute-Effect}
use ece391_os.Process.Closing.{IsOff}
use ece391_os.Process.Ending.{halt-pop}
use ece391_os.Process.Sound.{IsSound}
use ece391_os.Process.Reach.{IsBooted, IsElsewhere, boots, goes, others, Reachable-IsSound}
use ece391_os.Process.Sound.{IsSound}
use ece391_os.Tests.Screen.{top_left, top_left-OnScreen}
use ece391_os.Tests.Terminal.{three}

-- Terminal 0 runs process 1, which process 0 started; the other terminals have none.
abbrev first_term : ℕ → Term
first_term i = record (three.term i) { active = if i == 0 then 1 else 0; apn = pos 1 }

abbrev blocks : ℕ → ProcessBlock
blocks n = record {
  fds = new_fds;
  parent_ksp = 700;
  parent_kbp = 800;
  process_number = n;
  parent_process_number = 0;
  term = 0;
}

abbrev pub two_pids : List ℕ
two_pids = 1 ∷ 1 ∷ 0 ∷ 0 ∷ 0 ∷ 0 ∷ []

abbrev pub two : Kernel
two = record {
  memory = image;
  pid_array = two_pids;
  block = blocks;
  terminals = record three { term = first_term };
  rtc = quiet;
  ss0 = 0x18;
  esp0 = 0;
}

abbrev pub two_stacks : ℕ → List ℕ
two_stacks zero = 1 ∷ 0 ∷ []
two_stacks (suc n) = []

two_marked : (n : ℕ) → get_or two_pids n 0 ≤ 1
two_marked zero = ground arith
two_marked (suc zero) = ground arith
two_marked (suc (suc zero)) = ground arith
two_marked (suc (suc (suc zero))) = ground arith
two_marked (suc (suc (suc (suc zero)))) = ground arith
two_marked (suc (suc (suc (suc (suc zero))))) = ground arith
two_marked (suc (suc (suc (suc (suc (suc n)))))) = ground arith

two_placed : (n : ℕ) → total n two_stacks ≡ get_or two_pids n 0
unfolding occurrences
two_placed zero = ground arith
two_placed (suc zero) = ground arith
two_placed (suc (suc zero)) = ground arith
two_placed (suc (suc (suc zero))) = ground arith
two_placed (suc (suc (suc (suc zero)))) = ground arith
two_placed (suc (suc (suc (suc (suc zero))))) = ground arith
two_placed (suc (suc (suc (suc (suc (suc n)))))) = ground arith

two_chains : (i : ℕ) → i < 3 → IsChain blocks (two_stacks i)
two_chains zero l = (refl, refl, (refl, refl))
two_chains (suc i) l = tt

two_tops : (i : ℕ) → i < 3 → IsTop (first_term i) (two_stacks i)
two_tops zero l = (refl, refl)
two_tops (suc i) l = ground arith

pub two-Refines : Refines two two_stacks
two-Refines = record {
  table = record {
    six = refl;
    marked = two_marked;
    placed = two_placed;
    chains = two_chains;
    tops = two_tops;
  };
  shown = omega arith;
  executing = omega arith;
  cursor = top_left-OnScreen;
}

abbrev pub call : Call
call = record {
  exit = 100;
  term_num = 200;
  term_format = 300;
  too_many = 400;
  shell = 500;
  parsed_cmd = 600;
  arg = 900;
  buffer = 1000;
  test_dentry = 1100;
  cur_name = 1200;
  conv_buf = 1300;
  file_system = 0;
  ebp = 70;
  esp = 80;
  a_old = 0x26;
  depth = 3;
  chars = 64;
}

-- Process 1 ends, and process 0 goes on.
halt-pop_example :
    (k' : Kernel) × (halt call 5 two ≡ some (resumed 5 700 800, k'))
    × Refines k' (pop 0 two_stacks)
    × ((j : ℕ) → j < 8 → IsOff (desc (k'.block 1).fds j))
halt-pop_example =
    halt-pop call 5 two two_stacks 1 0 []
      (record { refines = two-Refines; stack = refl; eight = refl })

-- Process 2 starts, from the file of the image, without an argument.
abbrev claimed : Kernel
claimed = record two { pid_array = 1 ∷ 1 ∷ 1 ∷ 0 ∷ 0 ∷ 0 ∷ [] }

loaded_arg : loaded call 0 2 image 900 ≡ 0
unfolding loaded load32
loaded_arg =
    let (r, bytes) =
      read_data_lem image 0 0 0 0x1048000 100000 image-IsFile (inr (omega arith)) (omega arith)
        (omega arith) in
    bytes 900

start_process-push_run :
    (k' : Kernel) × (start_process call 0 4096 2 claimed ≡ some (entered 4096, k'))
    × Refines k' (push 0 2 two_stacks)
    × ((b : ℕ) → k'.memory b ≡ copied (loaded call 0 2 image) (argbuf_at 2) 900 1 b)
start_process-push_run =
    start_process-push call 0 4096 2 0 claimed two_pids two_stacks two-Refines refl (omega arith)
      refl (record { nul = loaded_arg; before = λ i h. absurd (omega arith) }) (inr (omega arith))
      (omega arith)

execute-Effect_example : Holds (Effect two_stacks 0) (execute call 2000 two)
execute-Effect_example = execute-Effect call (omega arith) two_stacks 2000 two two-Refines

abbrev booted : Kernel
booted = record two {
  pid_array = 0 ∷ 0 ∷ 0 ∷ 0 ∷ 0 ∷ 0 ∷ [];
  terminals = record three { term = λ i. record (three.term i) { active = 0 } };
}

booted-IsBooted : IsBooted booted
booted-IsBooted = record {
  numbers = refl;
  inactive = λ i l. refl;
  shown = omega arith;
  executing = omega arith;
  cursor = top_left-OnScreen;
}

-- The state after booting, with terminal 1 shown.
abbrev shown_one : Kernel
shown_one = record booted { terminals = show 1 booted.terminals }

shown_one-IsElsewhere : IsElsewhere booted shown_one
shown_one-IsElsewhere = record {
  numbers = refl;
  blocks = λ n. (refl, refl);
  runs = λ i. (refl, refl);
  shown = omega arith;
  executing = omega arith;
  cursor = record { column = omega arith; row = omega arith };
}

Reachable-IsSound_example : IsSound shown_one
Reachable-IsSound_example =
    Reachable-IsSound (goes (boots booted-IsBooted) (others shown_one-IsElsewhere))

-- "Page Fault" at 100.
abbrev fault_text : List ℕ
fault_text = b'P' ∷ b'a' ∷ b'g' ∷ b'e' ∷ b' ' ∷ b'F' ∷ b'a' ∷ b'u' ∷ b'l' ∷ b't' ∷ []

abbrev fault_at : Mem
fault_at b = get_or fault_text (b - 100) 0

fault_at-IsText : IsText fault_at 100 fault_text
fault_at-IsText = (
  refl,
  omega arith,
  (
    refl,
    omega arith,
    (
      refl,
      omega arith,
      (
        refl,
        omega arith,
        (
          refl,
          omega arith,
          (
            refl,
            omega arith,
            (
              refl,
              omega arith,
              (refl, omega arith, (refl, omega arith, (refl, omega arith, refl))),
            ),
          ),
        ),
      ),
    ),
  ),
)

exception-Stopped_example :
    (r : Stopped) × (exception 3 29 34 1000 100 fault_at top_left ≡ some r)
    × (r.interrupt_flag ≡ 0)
    × (r.screen ≡ printed_all fault_text (blue_screen top_left))
    × OnScreen r.screen
exception-Stopped_example =
    exception-Stopped 3 29 34 1000 100 fault_at page_fault fault_text top_left refl fault_at-IsText
      (inl (omega arith)) top_left-OnScreen (omega arith) (omega arith) (omega arith)
