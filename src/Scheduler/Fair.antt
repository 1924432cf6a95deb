-- ===== src/Scheduler/Fair.antt =====
-- Tick after tick (PIT_scheduling in scheduler.c), every active terminal gets its turn.
use ece391_os.Common.{
  ℕ, zero, suc, ◌+◌, ◌%◌, ◌≤◌, ◌<◌, ◌≡◌, refl, sym, ◌∙◌, subst, arith, ◌==◌, ◌||◌, Bool-cases, inl,
  inr, true, if◌then◌else◌,
}
use ece391_os.Terminal.{Term}
use ece391_os.Scheduler.{
  Scheduler, next_from, get_next_scheduled, process_contextswitch, pit_scheduling,
}

-- So many ticks of the timer, with nothing else between them.
unfoldable pub ticks : ℕ → Scheduler → Scheduler
unfolding pit_scheduling
ticks zero s = s
ticks (suc n) s = ticks n (pit_scheduling s)

-- A tick with a process on terminal 1 or 2 goes to the terminal that the search finds, and starts or
-- stops none.
record Ticked (s s' : Scheduler) : Type 0 where
  next : s'.terminals.cur_active ≡ next_from 2 s.terminals.term s.terminals.cur_active
  same : (i : ℕ) → s'.terminals.term i ≡ s.terminals.term i

pit_scheduling-Ticked :
    (s : Scheduler)
    → ((s.terminals.term 1).active == 1 || (s.terminals.term 2).active == 1) ≡ true
    → Ticked s (pit_scheduling s)
unfolding pit_scheduling get_next_scheduled process_contextswitch
pit_scheduling-Ticked s h = record { next = rw h refl; same = λ i. rw h refl }

-- The search stops at the next terminal if that is active, and else goes on to the one behind it.
next_from_lem :
    (term : ℕ → Term) (c : ℕ)
    → c < 3
    → next_from 2 term c ≡ (if (term ((c + 1) % 3)).active == 1 then (c + 1) % 3 else (c + 2) % 3)
unfolding next_from
next_from_lem term c l =
    let wrap : ((c + 1) % 3 + 1) % 3 ≡ (c + 2) % 3 = omega arith in
    elim (Bool-cases ((term ((c + 1) % 3)).active == 1)) [
      | inl y ↦ rw y refl
      | inr n ↦ elim (Bool-cases ((term (((c + 1) % 3 + 1) % 3)).active == 1)) [
        | inl y ↦ rw (n, y) wrap
        | inr m ↦ rw (n, m) wrap
      ]
    ]

-- A tick that goes to the next terminal, if that is active, and else to the one behind it.
one_tick :
    (s : Scheduler)
    → ((s.terminals.term 1).active == 1 || (s.terminals.term 2).active == 1) ≡ true
    → s.terminals.cur_active < 3
    → (pit_scheduling s).terminals.cur_active ≡ (
        if (s.terminals.term ((s.terminals.cur_active + 1) % 3)).active == 1
        then (s.terminals.cur_active + 1) % 3
        else (s.terminals.cur_active + 2) % 3)
one_tick s h l =
    (pit_scheduling-Ticked s h).next ∙ next_from_lem s.terminals.term s.terminals.cur_active l

-- No active terminal starves: with a process on terminal 1 or 2, each active terminal executes after
-- two ticks of the timer at most, whichever executes now.
pub ticks_lem :
    (s : Scheduler) (i : ℕ)
    → s.terminals.cur_active < 3
    → i < 3
    → (s.terminals.term i).active ≡ 1
    → ((s.terminals.term 1).active == 1 || (s.terminals.term 2).active == 1) ≡ true
    → (n : ℕ) × (n ≤ 2) × ((ticks n s).terminals.cur_active ≡ i)
unfolding ticks
ticks_lem s i l k a h =
    let c = s.terminals.cur_active in
    let s1 = pit_scheduling s in
    let ticked = pit_scheduling-Ticked s h in
    let first = one_tick s h l in
    elim (Bool-cases (c == i)) [
      | inl now ↦ (0, omega arith, ground (arith, now))
      | inr later ↦ elim (Bool-cases ((c + 1) % 3 == i)) [
        | inl next ↦
            let z : i ≡ (c + 1) % 3 = ground (arith, next) in
            let on : ((s.terminals.term ((c + 1) % 3)).active == 1) ≡ true =
              subst (λ j. ((s.terminals.term j).active == 1) ≡ true) z (rw a refl) in
            (1, omega arith, first ∙ (rw on refl ∙ sym z))
        | inr beyond ↦
            let z : i ≡ (c + 2) % 3 = ground (arith, later, beyond) in
            elim (Bool-cases ((s.terminals.term ((c + 1) % 3)).active == 1)) [
              | inr off ↦ (1, omega arith, first ∙ (rw off refl ∙ sym z))
              | inl on ↦
                  let here : s1.terminals.cur_active ≡ (c + 1) % 3 = first ∙ rw on refl in
                  let h1 : ((s1.terminals.term 1).active == 1 || (s1.terminals.term 2).active == 1)
                      ≡ true =
                    rw (ticked.same 1, ticked.same 2) h in
                  let then_i : i ≡ (s1.terminals.cur_active + 1) % 3 = omega (arith, z, here) in
                  let on1 : ((s1.terminals.term ((s1.terminals.cur_active + 1) % 3)).active == 1)
                      ≡ true =
                    subst (λ j. ((s1.terminals.term j).active == 1) ≡ true) then_i
                      (rw (ticked.same i, a) refl) in
                  (
                    2,
                    omega arith,
                    one_tick s1 h1 (omega (arith, here)) ∙ (rw on1 refl ∙ sym then_i),
                  )
            ]
      ]
    ]
