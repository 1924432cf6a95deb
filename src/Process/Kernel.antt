-- ===== src/Process/Kernel.antt =====
-- The state that execute and halt of student-distrib/syscalls.c share. The memory is by physical address. What the compiler and the caller fix (where the
-- literals and the local arrays are, the stack registers) is given with the call.
use ece391_os.Common.{ℕ, ◌+◌, ◌-◌, ◌*◌, ◌==◌, if◌then◌else◌, Option, some, List, ℤ, uint32, ◌>>=◌}
use ece391_os.Memory.{Mem}
use ece391_os.Print.{printf}
use ece391_os.Devices.Rtc.{Rtc}
use ece391_os.Scheduler.{addr_8mb}
use ece391_os.Terminal.{Term, Terminals}
use ece391_os.Terminal.Active.{putc_shown}
use ece391_os.Process.Descriptors.{FileDesc}

abbrev pub size_8kb : ℕ
size_8kb = 0x2000

-- What the two functions use of a pcb_t. `term` is the terminal that the pointer points to.
pub record ProcessBlock : Type 0 where
  pub fds : List FileDesc
  pub parent_ksp : ℕ
  pub parent_kbp : ℕ
  pub process_number : ℕ
  pub parent_process_number : ℕ
  pub term : ℕ

-- The address of a block's argbuf: get_pcb_ptr_process, and the offset of the field.
abbrev pub argbuf_at : ℕ → ℕ
argbuf_at process = addr_8mb - (process + 1) * size_8kb + 490

-- pid_array, the block of each process number, the terminals, the clock, and the fields of the TSS.
pub record Kernel : Type 0 where
  pub memory : Mem
  pub pid_array : List ℕ
  pub block : ℕ → ProcessBlock
  pub terminals : Terminals
  pub rtc : Rtc
  pub ss0 : ℕ
  pub esp0 : ℕ

-- The addresses of the literals "exit", "term_num", "TERM %d\n", "Too many processes active. " and
-- "shell", of the local arrays, and of the file system; %ebp and %esp; the clock's register A; and
-- bounds: of the depth of set_screen_pos, and of the characters of a string.
pub record Call : Type 0 where
  pub exit : ℕ
  pub term_num : ℕ
  pub term_format : ℕ
  pub too_many : ℕ
  pub shell : ℕ
  pub parsed_cmd : ℕ
  pub arg : ℕ
  pub buffer : ℕ
  pub test_dentry : ℕ
  pub cur_name : ℕ
  pub conv_buf : ℕ
  pub file_system : ℕ
  pub ebp : ℕ
  pub esp : ℕ
  pub a_old : ℕ
  pub depth : ℕ
  pub chars : ℕ

-- How a call ends: it returns, goes to a user program's entry point, goes back into the process that
-- started this one with a status and the stack registers, or calls halt.
pub data Outcome : Type 0 where
  returned : ℤ → Outcome
  entered : ℕ → Outcome
  resumed : ℕ → ℕ → ℕ → Outcome
  halts : Outcome

-- printf(format, args) on the shown screen.
unfoldable pub print : Call → ℕ → List ℕ → Kernel → Option Kernel
unfolding printf putc_shown
print c format args k = do
  out ← printf (putc_shown c.depth) c.chars c.chars c.conv_buf format args k.memory k.terminals
  some (record k { memory = out.1; terminals = out.2 })

-- The block array with one block replaced.
unfoldable pub put_block : ℕ → ProcessBlock → (ℕ → ProcessBlock) → ℕ → ProcessBlock
put_block i b block j = if i == j then b else block j

-- The block of the shown terminal's process, or of the executing one's; `apn` converts to uint32_t.
abbrev pub process_of : Term → ℕ
process_of t = uint32 t.apn
