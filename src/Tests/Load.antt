-- ===== src/Tests/Load.antt =====
-- A program that execute of syscalls.c loads.
use ece391_os.Common.{
  ℕ, zero, suc, ◌+◌, ◌≤◌, ◌<◌, ◌≡◌, ◌≢◌, min, get_or, refl, inr, arith, ◌==◌, if◌then◌else◌, some,
}
use ece391_os.Memory.{Mem, load32}
use ece391_os.FileSystem.Image.{size, file_byte}
use ece391_os.Scheduler.{get_proc_num, proc_num_from}
use ece391_os.Scheduler.Numbers.{IsNumbered}
use ece391_os.Process.Kernel.{Kernel, Call, entered, argbuf_at}
use ece391_os.Process.Execute.{load_process}
use ece391_os.Process.Stacks.{push}
use ece391_os.Process.Start.{Refines}
use ece391_os.Process.Effect.{Refines-memory}
use ece391_os.Process.Load.{IsProgram, HasRoom, load_at, load_process-push}
use ece391_os.Tests.Process.{call, two, two_pids, two_stacks, two-Refines}

-- The image at 0: one inode, two data blocks, a file of 28 bytes in block 1; the entry point is 9.
-- The argument "b" is at 20100.
abbrev with_program : Mem
with_program b =
    if b == 4
    then 1
    else if b == 8
    then 2
    else if b == 4096
    then 28
    else if b == 4100
    then 1
    else if b == 12288
    then 0x7F
    else if b == 12289
    then b'E'
    else if b == 12290
    then b'L'
    else if b == 12291
    then b'F'
    else if b == 12312
    then 9
    else if b == 20100
    then b'b'
    else 0

abbrev loading : Call
loading = record call { buffer = 20000; arg = 20100 }

abbrev ready : Kernel
ready = record two { memory = with_program }

two_first : (j : ℕ) → j < 2 → get_or two_pids j 1 ≢ 0
two_first zero l = ground arith
two_first (suc zero) l = ground arith
two_first (suc (suc j)) l = absurd (omega arith)

-- The first number that two_pids leaves free.
two_pids-IsNumbered : IsNumbered two_pids 2
unfolding get_proc_num proc_num_from
two_pids-IsNumbered = record { small = omega arith; free = refl; least = two_first; gives = refl }

with_program-IsProgram : IsProgram with_program 0 0
unfolding load32
with_program-IsProgram = record {
  file = record {
    inode_lt = omega arith;
    fits = omega arith;
    size_le = omega arith;
    block_lt = λ j l. ground arith;
  };
  long = omega arith;
  del = refl;
  letter_e = refl;
  letter_l = refl;
  letter_f = refl;
}

ready-HasRoom : HasRoom loading with_program 2 1
unfolding load32
ready-HasRoom = record {
  buffer = inr (omega arith);
  page = inr (omega arith);
  argument = record { nul = refl; before = λ i l. ground arith };
  short = omega arith;
  bounded = omega arith;
  not_buffer = inr (omega arith);
  below = omega arith;
  not_block = inr (omega arith);
}

ready-Refines : Refines ready two_stacks
ready-Refines = Refines-memory with_program two two_stacks two-Refines

load_process-push_example :
    (k' : Kernel) × (load_process loading 0 ready
      ≡ some (entered (load32 (file_byte with_program 0 0) 24), k'))
    × Refines k' (push 0 2 two_stacks)
    × ((i : ℕ)
        → i < min 100000 (size with_program 0 0)
        → k'.memory (load_at 2 + i) ≡ file_byte with_program 0 0 i)
    × ((i : ℕ) → i ≤ 1 → k'.memory (argbuf_at 2 + i) ≡ with_program (20100 + i))
load_process-push_example =
    load_process-push loading 0 2 1 ready two_stacks ready-Refines two_pids-IsNumbered
      with_program-IsProgram ready-HasRoom
