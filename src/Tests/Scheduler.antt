-- ===== src/Tests/Scheduler.antt =====
-- Choosing and switching processes, their numbers, and their file descriptors.
use ece391_os.Common.{
  ℕ, zero, suc, ◌*◌, ◌≤◌, ◌<◌, ◌≡◌, ◌≢◌, refl, arith, some, List, [], ◌∷◌, replicate, pos,
  minus_one,
}
use ece391_os.Paging.Translate.{translate}
use ece391_os.Devices.Pic.{power_on}
use ece391_os.Devices.Rtc.{Rtc}
use ece391_os.Scheduler.{Scheduler, get_next_scheduled, process_contextswitch, get_proc_num}
use ece391_os.Scheduler.Choice.{get_next_scheduled_lem}
use ece391_os.Scheduler.Switch.{process_contextswitch-translate, process_contextswitch_resumes}
use ece391_os.Scheduler.Fair.{ticks, ticks_lem}
use ece391_os.Scheduler.Numbers.{Handed, get_proc_num_lem}
use ece391_os.Process.Descriptors.{FileDesc, new_fds, free_desc, desc, open_entry, sys_close}
use ece391_os.Process.Search.{IsLeastFree}
use ece391_os.Process.Opening.{IsOpened, IsClosed, open_close, open_full}
use ece391_os.Tests.Terminal.{three}
use ece391_os.Tests.Paging.{empty-ArePlaced}

-- Process `i` runs on terminal `i`.
abbrev started : Scheduler
started = record {
  terminals = three;
  next_sched = 0;
  pcb = λ i. record { term = i; esp = 100 * i; ebp = 200 * i };
  esp0 = 0;
  ss0 = 0;
  esp = 5;
  ebp = 6;
  pic = power_on;
}

get_next_scheduled_lem_example :
    let s' = (get_next_scheduled started).1 in
    ((get_next_scheduled started).0 ≡ (three.term (s'.next_sched)).apn)
    × (s'.next_sched < 3)
    × (s'.next_sched ≢ 0)
    × ((three.term (s'.next_sched)).active ≡ 1)
    × (s'.next_sched ≡ 1)
    × (s' ≡ record started { next_sched = s'.next_sched })
get_next_scheduled_lem_example =
    get_next_scheduled_lem started 1 (omega arith) (omega arith) (omega arith) refl

process_contextswitch-translate_example :
    let p = (process_contextswitch 1 started).terminals.paging in
    (translate p 0x8048000 ≡ some 0xC48000) × (translate p 0x8800002 ≡ some 0x6402002)
process_contextswitch-translate_example =
    process_contextswitch-translate started 1 0x6402 0x48000 2 empty-ArePlaced (omega arith) refl
      (omega arith) (omega arith)

-- From process 0 to process 1, and back while terminal 1 executes.
abbrev away : Scheduler
away = process_contextswitch 1 (record started { next_sched = 1 })

process_contextswitch_resumes_example :
    let t' = process_contextswitch 0 away in
    (t'.esp ≡ 5) × (t'.ebp ≡ 6) × (t'.terminals.cur_active ≡ 1)
unfolding process_contextswitch
process_contextswitch_resumes_example =
    process_contextswitch_resumes (record started { next_sched = 1 }) away 1 refl (omega arith)

get_proc_num_lem_run :
    Handed (1 ∷ 1 ∷ 0 ∷ 0 ∷ 0 ∷ 0 ∷ []) 0 6 (get_proc_num (1 ∷ 1 ∷ 0 ∷ 0 ∷ 0 ∷ 0 ∷ []))
get_proc_num_lem_run = get_proc_num_lem (1 ∷ 1 ∷ 0 ∷ 0 ∷ 0 ∷ 0 ∷ [])

abbrev pub quiet : Rtc
quiet = record { interrupt_occurred = 0 ∷ 0 ∷ 0 ∷ []; written = [] }

open_close_example :
    (k : ℕ) × (fds' fds'' : List FileDesc) × (rtc' rtc'' : Rtc) × (k ≤ 4)
    × IsLeastFree new_fds k
    × (open_entry 2 38 0x26 new_fds quiet ≡ some (pos k, fds', rtc'))
    × IsOpened 2 new_fds fds' k
    × (sys_close (pos k) 0x26 fds' rtc' ≡ some (pos 0, fds'', rtc''))
    × IsClosed new_fds fds'' k
open_close_example =
    open_close 2 38 0x26 4 new_fds quiet refl (omega arith) (omega arith) (omega arith) refl

abbrev all_used : List FileDesc
all_used = replicate 8 (record free_desc { flags = 1 })

used : (j : ℕ) → 2 ≤ j → j < 8 → (desc all_used j).flags ≢ 0
used zero p q = absurd (omega arith)
used (suc zero) p q = absurd (omega arith)
used (suc (suc zero)) p q = omega arith
used (suc (suc (suc zero))) p q = omega arith
used (suc (suc (suc (suc zero)))) p q = omega arith
used (suc (suc (suc (suc (suc zero))))) p q = omega arith
used (suc (suc (suc (suc (suc (suc zero)))))) p q = omega arith
used (suc (suc (suc (suc (suc (suc (suc zero))))))) p q = omega arith
used (suc (suc (suc (suc (suc (suc (suc (suc j)))))))) p q = absurd (omega arith)

open_full_run : open_entry 1 0 0x26 all_used quiet ≡ some (minus_one, all_used, quiet)
open_full_run = open_full 1 0 0x26 all_used quiet used

-- From terminal 0 to terminal 2.
ticks_lem_example : (n : ℕ) × (n ≤ 2) × ((ticks n started).terminals.cur_active ≡ 2)
ticks_lem_example = ticks_lem started 2 (omega arith) (omega arith) refl refl
