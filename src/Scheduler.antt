-- ===== src/Scheduler.antt =====
-- student-distrib/scheduler.c: the timer chip, the choice of the next terminal, and the switch of
-- processes, with get_proc_num of syscalls.c that hands out the process numbers.
pub mod Choice
pub mod Switch
pub mod Numbers
pub mod Fair
use ece391_os.Common.{
  ℕ, zero, suc, ◌+◌, ◌-◌, ◌*◌, ◌/◌, ◌%◌, ◌^◌, ◌==◌, ◌||◌, if◌then◌else◌, List, [], ◌∷◌, ◌++◌,
  get_or, set, ℤ, pos, minus_one, u32, uint32,
}
use ece391_os.Devices.Ports.{Writes}
use ece391_os.Devices.Pic.{Pic, enable_irq, send_eoi}
use ece391_os.Paging.{page_remap, table_remap, vidmem_remap}
use ece391_os.Terminal.{Term, Terminals, addr_136mb, video_addr, max_term}

abbrev pub pit_irq : ℕ
pit_irq = 0

abbrev pub addr_128mb : ℕ
addr_128mb = 0x8000000

abbrev pub addr_8mb : ℕ
addr_8mb = 0x800000

abbrev pub size_4mb : ℕ
size_4mb = 0x400000

-- PIT_init, on the interrupt controllers; CLK_FREQ / SET_FREQ is sent low byte first.
pit_init : Pic → Pic
pit_init p =
    let frequency = 1193180 / 50 in
    enable_irq pit_irq (record p {
      written =
          p.written
          ++ ((0x36, 0x43) ∷ (frequency % 256, 0x40) ∷ (frequency / 2 ^ 8 % 256, 0x40) ∷ []);
    })

-- The fields of a pcb_t that a switch uses. `term` is the terminal that the pointer points to.
pub record Pcb : Type 0 where
  pub term : ℕ
  pub esp : ℕ
  pub ebp : ℕ

-- The terminals with `cur_active_terminal`, `next_sched_terminal`, the PCB of each process number,
-- the fields of the TSS, and the processor's stack registers.
pub record Scheduler : Type 0 where
  pub terminals : Terminals
  pub next_sched : ℕ
  pub pcb : ℕ → Pcb
  pub esp0 : ℕ
  pub ss0 : ℕ
  pub esp : ℕ
  pub ebp : ℕ
  pub pic : Pic

-- The loop of get_next_scheduled, with the rounds that are left.
unfoldable pub next_from : ℕ → (ℕ → Term) → ℕ → ℕ
next_from zero term next = next
next_from (suc r) term next =
    let next' = (next + 1) % max_term in
    let rest = next_from r term next' in if (term next').active == 1 then next' else rest

-- The result is the `apn` of the terminal that is left in next_sched_terminal.
unfoldable pub get_next_scheduled : Scheduler → ℤ × Scheduler
get_next_scheduled s =
    let next = next_from 2 s.terminals.term s.terminals.cur_active in
    ((s.terminals.term next).apn, record s { next_sched = next })

-- The process of the executing terminal, converted to uint32_t.
abbrev pub running : Scheduler → ℕ
running s = uint32 ((s.terminals.term (s.terminals.cur_active)).apn)

-- The PCB array with one process's stack saved.
unfoldable pub saved_stack : ℕ → ℕ → ℕ → (ℕ → Pcb) → ℕ → Pcb
saved_stack i esp ebp pcb j = if i == j then record (pcb j) { esp = esp; ebp = ebp } else pcb j

-- process_contextswitch(next_process). vidmap is the table_remap; the TSS is loaded before the stack
-- of the old process is saved and the one of the next is taken.
unfoldable pub process_contextswitch : ℕ → Scheduler → Scheduler
unfolding saved_stack
process_contextswitch next_process s =
    let paged =
      table_remap addr_136mb video_addr
        (page_remap addr_128mb (u32 (addr_8mb + next_process * size_4mb)) s.terminals.paging) in
    let t = s.terminals.term ((s.pcb next_process).term) in
    let shown = t.id == s.terminals.screen.cur_term in
    let pcb' = saved_stack (running s) s.esp s.ebp s.pcb in
    record s {
      terminals = record (s.terminals) {
        cur_active = s.next_sched;
        paging = if shown then paged else vidmem_remap addr_136mb t.video_mem paged;
      };
      esp0 = u32 (addr_8mb + (2 ^ 32 - u32 (0x2000 * next_process)) + (2 ^ 32 - 4));
      ss0 = 0x0018;
      pcb = pcb';
      esp = (pcb' next_process).esp;
      ebp = (pcb' next_process).ebp;
    }

-- PIT_scheduling: the handler of the timer's interrupt.
unfoldable pub pit_scheduling : Scheduler → Scheduler
unfolding get_next_scheduled process_contextswitch
pit_scheduling s =
    let s1 = record s { pic = send_eoi pit_irq s.pic } in
    let (next, s2) = get_next_scheduled s1 in
    if (s.terminals.term 1).active == 1 || (s.terminals.term 2).active == 1
    then process_contextswitch (uint32 next) s2
    else s1

-- get_proc_num, with the rounds that are left; the message of a failure is left out.
unfoldable pub proc_num_from : ℕ → List ℕ → ℕ → ℤ × List ℕ
proc_num_from zero pid_array i = (minus_one, pid_array)
proc_num_from (suc r) pid_array i =
    let rest = proc_num_from r pid_array (i + 1) in
    if get_or pid_array i 1 == 0 then (pos i, set pid_array i 1) else rest

abbrev pub num_max_processes : ℕ
num_max_processes = 6

unfoldable pub get_proc_num : List ℕ → ℤ × List ℕ
unfolding proc_num_from
get_proc_num pid_array = proc_num_from num_max_processes pid_array 0
