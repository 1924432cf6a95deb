-- ===== src/Process/Execute.antt =====
-- execute of student-distrib/syscalls.c: from a command line to a process.
use ece391_os.Common.{
  is_zero, ℕ, ◌+◌, ◌-◌, ◌*◌, ◌==◌, ◌||◌, not, Bool, if◌then◌else◌, Option, ℤ, List, some, [], ◌∷◌,
  pos, negsuc, minus_one, ◌>>=◌,
}
use ece391_os.Memory.{Mem, load32}
use ece391_os.CString.{strcpy, strncmp}
use ece391_os.FileSystem.{read_dentry_by_name, read_data, inode_number_at}
use ece391_os.Paging.{page_remap}
use ece391_os.Scheduler.{get_proc_num, addr_128mb, addr_8mb, size_4mb}
use ece391_os.Terminal.{put}
use ece391_os.Process.Descriptors.{new_fds}
use ece391_os.Process.Command.{parse_command}
use ece391_os.Process.Kernel.{
  size_8kb, argbuf_at, Kernel, Call, Outcome, returned, entered, halts, print, put_block,
  process_of,
}

-- The memory with the program's file read to LOAD_ADDRESS, in the page of the process.
unfoldable pub loaded : Call → ℕ → ℕ → Mem → Mem
loaded c inode n m =
    (read_data m c.file_system inode 0 (addr_8mb + n * size_4mb + 0x48000) 100000).1

-- The state that a new process `n` starts in: paging, the PCB, the terminal and the TSS.
unfoldable pub started : Call → ℕ → Mem → Kernel → Kernel
unfolding put_block put
started c n m k =
    let s = k.terminals in
    let shown = s.screen.cur_term in
    let t = s.term shown in
    let first = t.active == 0 in
    let numbered = record (k.block n) {
      parent_kbp = c.ebp;
      parent_ksp = c.esp;
      process_number = n;
    } in
    let parent =
      if first then n else (put_block n numbered k.block (process_of t)).process_number in
    record k {
      memory = m;
      block =
          put_block n
            (record numbered { parent_process_number = parent; fds = new_fds; term = shown })
            k.block;
      terminals = record s {
        paging = page_remap addr_128mb (addr_8mb + n * size_4mb) s.paging;
        cur_active = if first then shown else s.cur_active;
        term = put shown (record t { active = if first then 1 else t.active; apn = pos n }) s.term;
      };
      ss0 = 0x18;
      esp0 = addr_8mb - size_8kb * n - 4;
    }

-- From the new process number on: the file is loaded, and the argument goes to the PCB.
unfoldable pub start_process : Call → ℕ → ℕ → ℕ → Kernel → Option (Outcome × Kernel)
unfolding started loaded
start_process c inode entry_location n k = do
  m ← strcpy c.chars (loaded c inode n k.memory) (argbuf_at n) c.arg
  some (entered entry_location, started c n m k)

-- buffer[0..3] are ASCII_DEL, 'E', 'L', 'F'.
unfoldable pub is_elf : Mem → ℕ → Bool
is_elf m buffer = not (
    not (m (buffer + 1) == b'E')
    || not (m (buffer + 2) == b'L')
    || not (m (buffer + 3) == b'F')
    || not (m buffer == 0x7F))

-- From the result of get_proc_num and the new pid_array on.
unfoldable pub with_number : Call → ℕ → Kernel → ℤ × List ℕ → Option (Outcome × Kernel)
unfolding print start_process
with_number c inode k (pos n, pids) =
    start_process c inode (load32 k.memory c.buffer) n (record k { pid_array = pids })
with_number c inode k (negsuc e, pids) = do
  k' ← print c c.too_many [] (record k { pid_array = pids })
  some (returned minus_one, k')

-- From the ELF check on, for the file of an inode; the entry point is 24 bytes into the file.
unfoldable pub load_process : Call → ℕ → Kernel → Option (Outcome × Kernel)
unfolding with_number is_elf
load_process c inode k =
    let m1 = (read_data k.memory c.file_system inode 0 c.buffer 4).1 in
    let m2 = (read_data m1 c.file_system inode 24 c.buffer 4).1 in
    if not (is_elf m1 c.buffer)
    then some (returned minus_one, record k { memory = m1 })
    else with_number c inode (record k { memory = m2 }) (get_proc_num k.pid_array)

-- From the look-up of the name on.
unfoldable pub find_process : Call → Kernel → Option (Outcome × Kernel)
unfolding load_process
find_process c k = do
  found ← read_dentry_by_name c.chars k.memory c.file_system c.parsed_cmd c.test_dentry c.cur_name
  let k' = record k { memory = found.1 }
  if is_zero found.0
      then load_process c (load32 found.1 (inode_number_at c.test_dentry)) k'
      else some (returned minus_one, k')

-- From the tests for the two built-in commands on; four characters are compared.
unfoldable pub run_command : Call → Kernel → Option (Outcome × Kernel)
unfolding print find_process
run_command c k =
    let named = (do
      k' ← print c c.term_format (k.terminals.screen.cur_term ∷ []) k
      find_process c k') in
    let unnamed = find_process c k in
    if is_zero (strncmp k.memory c.exit c.parsed_cmd 4)
    then some (halts, k)
    else if is_zero (strncmp k.memory c.term_num c.parsed_cmd 4)
    then named
    else unnamed

-- execute(command).
unfoldable pub execute : Call → ℕ → Kernel → Option (Outcome × Kernel)
unfolding run_command
execute c command k = do
  m ← parse_command c.chars k.memory command c.parsed_cmd c.arg
  run_command c (record k { memory = m })
