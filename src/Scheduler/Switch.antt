-- ===== src/Scheduler/Switch.antt =====
-- What a switch of processes (scheduler.c) does to the address space and to the stacks.
use ece391_os.Common.{
  ℕ, ◌+◌, ◌*◌, ◌^◌, ◌<◌, ◌≡◌, ◌≢◌, refl, arith, bit_or, bit_or-flags, ◌==◌, if◌then◌else◌, some,
  u32,
}
use ece391_os.Terminal.{video_addr}
use ece391_os.Scheduler.{Scheduler, process_contextswitch, saved_stack, running}
use ece391_os.Paging.{page_remap, table_remap, vidmem_remap}
use ece391_os.Paging.Translate.{translate, ArePlaced}

-- A process that is switched away from finds its stack where it was, when it is switched to from
-- another process and its PCB has been left alone since.
pub process_contextswitch_resumes :
    (s t : Scheduler) (next : ℕ)
    → t.pcb (running s) ≡ (process_contextswitch next s).pcb (running s)
    → running t ≢ running s
    → let t' = process_contextswitch (running s) t in
      (t'.esp ≡ s.esp) × (t'.ebp ≡ s.ebp) × (t'.terminals.cur_active ≡ t.next_sched)
unfolding process_contextswitch saved_stack
process_contextswitch_resumes s t next e d = ground (arith, e, d)

large_number : (next : ℕ) → next < 6 → u32 (0x800000 + next * 0x400000) ≡ (next + 2) * 2 ^ 22
large_number next n = omega arith

-- After a switch to one of the first six processes, its 4 MB of program memory are the physical
-- ones of its number, and the page at 136 MB is the screen if the process's terminal is shown and
-- the buffer of that terminal otherwise.
pub process_contextswitch-translate :
    (s : Scheduler) (next page a b : ℕ)
    → ArePlaced s.terminals.paging
    → next < 6
    → (s.terminals.term ((s.pcb next).term)).video_mem ≡ page * 2 ^ 12
    → a < 2 ^ 22
    → b < 4096
    → let p = (process_contextswitch next s).terminals.paging in
      let t = s.terminals.term ((s.pcb next).term) in
      (translate p (0x8000000 + a) ≡ some (0x800000 + next * 0x400000 + a))
      × (translate p (0x8800000 + b)
          ≡ some ((if t.id == s.terminals.screen.cur_term then 0xB8000 else t.video_mem) + b))
unfolding process_contextswitch page_remap table_remap vidmem_remap translate
process_contextswitch-translate s next page a b w n v l l' =
    let p = s.terminals.paging in
    let t = s.terminals.term ((s.pcb next).term) in
    let program : bit_or (u32 (0x800000 + next * 0x400000)) 0x87 ≡ (next + 2) * 2 ^ 22 + 0x87 =
      rw (large_number next n) (bit_or-flags 22 (next + 2) 0x87 (omega arith)) in
    let screen : bit_or video_addr 7 ≡ video_addr + 7 = refl in
    let buffer : bit_or t.video_mem 7 ≡ t.video_mem + 7 =
      rw v (bit_or-flags 12 page 7 (omega arith)) in
    let user : bit_or p.user_page_table_addr 7 ≡ p.user_page_table_addr + 7 =
      rw w.user_aligned (bit_or-flags 12 w.user_number 7 (omega arith)) in
    let video : bit_or p.video_page_table_addr 7 ≡ p.video_page_table_addr + 7 =
      rw w.video_aligned (bit_or-flags 12 w.video_number 7 (omega arith)) in
    (ground (arith, program), ground (arith, screen, buffer, user, video))
