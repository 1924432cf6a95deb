-- ===== src/Process/Halt.antt =====
-- halt of student-distrib/syscalls.c: the end of a process.
use ece391_os.Common.{
  ℕ, zero, suc, ◌+◌, ◌*◌, ◌==◌, if◌then◌else◌, Option, some, List, set, pos, ◌>>=◌,
}
use ece391_os.Devices.Rtc.{Rtc}
use ece391_os.Paging.{page_remap}
use ece391_os.Scheduler.{addr_128mb, addr_8mb, size_4mb}
use ece391_os.Terminal.{Term, put}
use ece391_os.Process.Descriptors.{FileDesc, fops_error, desc, sys_close}
use ece391_os.Process.Kernel.{
  Kernel, Call, Outcome, returned, entered, resumed, halts, put_block, process_of,
}
use ece391_os.Process.Execute.{execute}

-- One round of the loop of halt over the descriptors. sys_close finds the PCB by the stack pointer,
-- and halt runs on the kernel stack of the process that ends.
unfoldable pub close_one : ℕ → ℕ → List FileDesc → Rtc → Option (List FileDesc × Rtc)
unfolding sys_close
close_one i a_old fds rtc = do
  closed ←
      (if (desc fds i).flags == 1 then sys_close (pos i) a_old fds rtc else some (pos 0, fds, rtc))
  some (set closed.1 i (record (desc closed.1 i) { fops_ptr = fops_error; flags = 0 }), closed.2)

-- The loop, with the rounds that are left.
unfoldable pub close_all : ℕ → ℕ → List FileDesc → Rtc → ℕ → Option (List FileDesc × Rtc)
unfolding close_one
close_all zero a_old fds rtc i = some (fds, rtc)
close_all (suc r) a_old fds rtc i = do
  closed ← close_one i a_old fds rtc
  close_all r a_old closed.0 closed.1 (i + 1)

-- How halt ends: the page and the kernel stack of the parent, and its stack registers.
unfoldable pub resume : ℕ → ℕ → ℕ → Kernel → Outcome × Kernel
resume status current parent k =
    let b = k.block current in
    (
      resumed status b.parent_ksp b.parent_kbp,
      record k {
        terminals = record (k.terminals) {
          paging =
              page_remap addr_128mb (addr_8mb + (k.block parent).process_number * size_4mb)
                k.terminals.paging;
        };
        esp0 = b.parent_ksp;
      },
    )

-- The executing terminal's entry replaced.
unfoldable pub put_executing : Term → Kernel → Kernel
unfolding put
put_executing t k =
    let s = k.terminals in record k { terminals = record s { term = put s.cur_active t s.term } }

-- The state with the executing terminal's process gone, given what its descriptors and the clock are
-- after the loop: its number is free, and its parent is the terminal's process.
unfoldable pub left : Kernel → List FileDesc × Rtc → Kernel
unfolding put_block put_executing
left k closed =
    let t = k.terminals.term k.terminals.cur_active in
    let current = process_of t in
    let b = k.block current in
    let block = put_block current (record b { fds = closed.0 }) k.block in
    put_executing (record t { apn = pos (block b.parent_process_number).process_number })
      (record k { pid_array = set k.pid_array b.process_number 0; block = block; rtc = closed.1 })

-- halt(status) up to the test for the last process.
unfoldable pub leave : Call → Kernel → Option Kernel
unfolding close_all left
leave c k = do
  let current = process_of (k.terminals.term k.terminals.cur_active)
  closed ← close_all 8 c.a_old (k.block current).fds k.rtc 0
  some (left k closed)

-- The rest of halt after the call of execute for the terminal's last process. A shell that it starts
-- does not come back here.
unfoldable pub after_shell : ℕ → ℕ → ℕ → Outcome × Kernel → Outcome × Kernel
unfolding resume
after_shell status current parent (returned r, k) = resume status current parent k
after_shell status current parent (entered e, k) = (entered e, k)
after_shell status current parent (resumed s ksp kbp, k) = (resumed s ksp kbp, k)
after_shell status current parent (halts, k) = (halts, k)

-- The state in which the last process of a terminal calls execute.
unfoldable pub last_left : Kernel → Kernel
unfolding put_executing
last_left k = put_executing (record (k.terminals.term k.terminals.cur_active) { active = 0 }) k

-- halt(status).
unfoldable pub halt : Call → ℕ → Kernel → Option (Outcome × Kernel)
unfolding execute resume leave last_left after_shell
halt c status k =
    let current = process_of (k.terminals.term k.terminals.cur_active) in
    let parent = (k.block current).parent_process_number in
    do
      k1 ← leave c k
      let again = (do
        ran ← execute c c.shell (last_left k1)
        some (after_shell status current parent ran))
      if (k1.block current).process_number == parent
          then again
          else some (resume status current parent k1)
