-- ===== src/Scheduler/Choice.antt =====
-- Which terminal get_next_scheduled (scheduler.c) picks.
use ece391_os.Common.{ℕ, ◌+◌, ◌%◌, ◌<◌, ◌≡◌, ◌≢◌, ◌⊎◌, refl, arith, ◌==◌, if◌then◌else◌}
use ece391_os.Terminal.{max_term}
use ece391_os.Scheduler.{Scheduler, next_from, get_next_scheduled}

-- If a terminal other than the executing one is active, get_next_scheduled gives the process of an
-- active one among them, and of the next one in the cyclic order if that is active; it changes
-- nothing but next_sched_terminal.
pub get_next_scheduled_lem :
    (s : Scheduler) (i : ℕ)
    → s.terminals.cur_active < max_term
    → i < max_term
    → i ≢ s.terminals.cur_active
    → (s.terminals.term i).active ≡ 1
    → let (pid, s') = get_next_scheduled s in
      let after = (s.terminals.cur_active + 1) % max_term in
      (pid ≡ (s.terminals.term (s'.next_sched)).apn)
      × (s'.next_sched < max_term)
      × (s'.next_sched ≢ s.terminals.cur_active)
      × ((s.terminals.term (s'.next_sched)).active ≡ 1)
      × ((if (s.terminals.term after).active == 1 then s'.next_sched else after) ≡ after)
      × (s' ≡ record s { next_sched = s'.next_sched })
unfolding get_next_scheduled next_from
get_next_scheduled_lem s i c l d a =
    let cur = s.terminals.cur_active in
    let others : (i ≡ (cur + 1) % 3) ⊎ (i ≡ ((cur + 1) % 3 + 1) % 3) = omega arith in
    (refl, ground arith, ground arith, ground (arith, others), ground arith, refl)
