-- ===== src/Process/Ending.antt =====
-- How halt (syscalls.c) ends: back in the parent, or in a new shell.
use ece391_os.Common.{
  ℕ, ◌<◌, ◌≡◌, ◌≢◌, refl, sym, ◌∙◌, ap, subst, arith, ◌==◌, List, ◌∷◌, true, false, ne→==, some,
}
use ece391_os.Devices.Rtc.{Rtc}
use ece391_os.Process.Descriptors.{FileDesc, desc}
use ece391_os.Process.Kernel.{Kernel, Call, resumed, put_block, process_of}
use ece391_os.Process.Halt.{left, leave, put_executing, resume, halt, close_all}
use ece391_os.Process.Stacks.{occurrences, pop, occurrences-total}
use ece391_os.Process.Moves.{parent_on}
use ece391_os.Process.Start.{Refines}
use ece391_os.Process.Closing.{IsOff, close_all_returns}
use ece391_os.Process.Popping.{Runs, running, left-Refines}

-- The executing terminal's process, as the source finds it.
abbrev pub current_of : Kernel → ℕ
current_of k = process_of (k.terminals.term k.terminals.cur_active)

-- The block of the process that ends, behind the loop.
left_block :
    (k : Kernel) (closed : List FileDesc × Rtc)
    → (left k closed).block (current_of k) ≡ record (k.block (current_of k)) { fds = closed.0 }
unfolding left put_executing put_block
left_block k closed =
    let self : (current_of k == current_of k) ≡ true = ground arith in rw self refl

left_block_at :
    (k : Kernel) (st : ℕ → List ℕ) (n : ℕ) (r : List ℕ) (closed : List FileDesc × Rtc)
    → Runs k st n r
    → (left k closed).block n ≡ record (k.block n) { fds = closed.0 }
left_block_at k st n r closed h =
    subst (λ m. (left k closed).block m ≡ record (k.block m) { fds = closed.0 }) (running h).here
      (left_block k closed)

-- The test for the last process.
pub last_test :
    (k : Kernel) (st : ℕ → List ℕ) (n : ℕ) (r : List ℕ) (closed : List FileDesc × Rtc)
    → Runs k st n r
    → (((left k closed).block (current_of k)).process_number
        == (k.block (current_of k)).parent_process_number)
      ≡ (n == parent_on n r)
last_test k st n r closed h =
    let now = running h in
    let number : ((left k closed).block (current_of k)).process_number ≡ n =
      ap (λ b. b.process_number) (left_block k closed)
      ∙ (ap (λ m. (k.block m).process_number) now.here ∙ now.number) in
    let parent : (k.block (current_of k)).parent_process_number ≡ parent_on n r =
      ap (λ m. (k.block m).parent_process_number) now.here ∙ now.parent in
    ap (λ x. x == (k.block (current_of k)).parent_process_number) number ∙ ap (λ y. n == y) parent

-- A process is not its own parent but at the bottom of the stack.
parent_differs : (k : Kernel) (st : ℕ → List ℕ) (n p : ℕ) (r : List ℕ) → Runs k st n (p ∷ r) → n ≢ p
unfolding occurrences
parent_differs k st n p r h e =
    let i = k.terminals.cur_active in
    let t = h.refines.table in
    let twice : occurrences n (st i) ≡ occurrences n (n ∷ p ∷ r) = ap (occurrences n) h.stack in
    ground (arith, twice, e, t.marked n, t.placed n, occurrences-total n i st h.refines.executing)

-- halt of a process that another one started, on a state that refines stacks, returns the status to that one, with the stack
-- registers that execute saved. The process is off its terminal's stack, its number is free, and its
-- eight descriptors are closed.
pub halt-pop :
    (c : Call) (status : ℕ) (k : Kernel) (st : ℕ → List ℕ) (n p : ℕ) (r : List ℕ)
    → Runs k st n (p ∷ r)
    → (k' : Kernel) × (halt c status k
        ≡ some (resumed status (k.block n).parent_ksp (k.block n).parent_kbp, k'))
      × Refines k' (pop k.terminals.cur_active st)
      × ((j : ℕ) → j < 8 → IsOff (desc (k'.block n).fds j))
unfolding halt leave resume
halt-pop c status k st n p r h =
    let now = running h in
    let (fds, rtc, e, long, kept, off) =
      close_all_returns 8 0 c.a_old (k.block n).fds k.rtc (h.eight ∙ omega arith) in
    let closed : close_all 8 c.a_old (k.block (current_of k)).fds k.rtc 0 ≡ some (fds, rtc) =
      subst (λ m. close_all 8 c.a_old (k.block m).fds k.rtc 0 ≡ some (fds, rtc)) (sym now.here) e in
    let k1 = left k (fds, rtc) in
    let other : (n == p) ≡ false = ne→== n p (parent_differs k st n p r h) in
    let h' = left-Refines k st n p r (fds, rtc) h in
    let registers : (resumed status (k1.block (current_of k)).parent_ksp
          (k1.block (current_of k)).parent_kbp)
        ≡ resumed status (k.block n).parent_ksp (k.block n).parent_kbp =
      ap (λ b. resumed status b.parent_ksp b.parent_kbp) (left_block k (fds, rtc))
      ∙ ap (λ m. resumed status (k.block m).parent_ksp (k.block m).parent_kbp) now.here in
    let k' = (resume status (current_of k) (k.block (current_of k)).parent_process_number k1).1 in
    (
      k',
      rw (closed, last_test k st n (p ∷ r) (fds, rtc) h, other) (ap (λ o. some (o, k')) registers),
      record { table = h'.table; shown = h'.shown; executing = h'.executing; cursor = h'.cursor },
      λ j l.
          subst (λ b. IsOff (desc b.fds j)) (sym (left_block_at k st n (p ∷ r) (fds, rtc) h))
            (off j (omega arith) (omega arith)),
    )
