-- ===== src/Process/Sound.antt =====
-- The stacks of processes after a halt (syscalls.c), of the last process of a terminal or not.
use ece391_os.Common.{
  ℕ, ◌≤◌, ◌≡◌, refl, sym, subst, arith, ◌==◌, if◌then◌else◌, List, [], ◌∷◌, true, some, ◌>>=◌,
  Holds, Holds-bind, Holds-any,
}
use ece391_os.Devices.Rtc.{Rtc}
use ece391_os.Process.Descriptors.{FileDesc}
use ece391_os.Process.Kernel.{Kernel, Call, Outcome, returned, entered, resumed, halts}
use ece391_os.Process.Execute.{execute}
use ece391_os.Process.Halt.{left, last_left, leave, resume, halt, after_shell, close_all}
use ece391_os.Process.Stacks.{push, pop}
use ece391_os.Process.Start.{Refines}
use ece391_os.Process.Effect.{Effect, execute-Effect}
use ece391_os.Process.Popping.{Runs, last_left-Refines}
use ece391_os.Process.Ending.{current_of, last_test, halt-pop}

-- The state refines some stacks.
abbrev pub IsSound : Kernel → Type 0
IsSound k = (st : ℕ → List ℕ) × Refines k st

resume-IsSound :
    (status current parent : ℕ) (k : Kernel) (st : ℕ → List ℕ)
    → Refines k st
    → IsSound (resume status current parent k).1
unfolding resume
resume-IsSound status current parent k st h =
    (st, record { table = h.table; shown = h.shown; executing = h.executing; cursor = h.cursor })

after_shell-IsSound :
    (status current parent : ℕ) (o : Outcome × Kernel) (st : ℕ → List ℕ) (shown : ℕ)
    → Effect st shown o
    → IsSound (after_shell status current parent o).1
unfolding after_shell
after_shell-IsSound status current parent (returned r, k) st shown h =
    resume-IsSound status current parent k st h
after_shell-IsSound status current parent (entered e, k) st shown (n, l, h) = (push shown n st, h)
after_shell-IsSound status current parent (resumed s ksp kbp, k) st shown h = absurd h
after_shell-IsSound status current parent (halts, k) st shown h = (st, h)

module _ (c : Call) (deep : 3 ≤ c.depth) where
  -- The last process of a terminal ends: its stack is empty, and a shell may be started.
  last-IsSound :
      (status : ℕ) (k : Kernel) (st : ℕ → List ℕ) (n : ℕ)
      → Runs k st n []
      → Holds (λ (o : Outcome × Kernel). IsSound o.1) (halt c status k)
  unfolding halt leave
  last-IsSound status k st n h =
      let current = current_of k in
      let parent = (k.block current).parent_process_number in
      let loop = close_all 8 c.a_old (k.block current).fds k.rtc 0 in
      let st' = pop k.terminals.cur_active st in
      let self : (n == n) ≡ true = ground arith in
      Holds-bind (λ k1. (closed : List FileDesc × Rtc) × (k1 ≡ left k closed)) _
        (loop >>= (λ closed. some (left k closed))) _
        (Holds-bind (λ closed. Unit {0}) _ loop _ (Holds-any loop) (λ closed u. (closed, refl)))
        (λ k1 (closed, e).
          let h' = last_left-Refines k st n closed h in
          let ready = last_left (left k closed) in
          subst
            (λ k1.
              Holds (λ (o : Outcome × Kernel). IsSound o.1)
                (if (k1.block current).process_number == parent
                  then (execute c c.shell (last_left k1)
                      >>= (λ ran. some (after_shell status current parent ran)))
                  else some (resume status current parent k1)))
            (sym e)
            (rw (last_test k st n [] closed h, self)
              (Holds-bind (Effect st' ready.terminals.screen.cur_term) _ (execute c c.shell ready) _
                (execute-Effect c deep st' c.shell ready h')
                (λ ran q. after_shell-IsSound status current parent ran st' _ q))))

  inner-IsSound :
      (status : ℕ) (k : Kernel) (st : ℕ → List ℕ) (n p : ℕ) (r : List ℕ)
      → Runs k st n (p ∷ r)
      → Holds (λ (o : Outcome × Kernel). IsSound o.1) (halt c status k)
  inner-IsSound status k st n p r h =
      let (k', e, h', off) = halt-pop c status k st n p r h in
      rw e (pop k.terminals.cur_active st, h')

  pub halt-IsSound :
      (status : ℕ) (k : Kernel) (st : ℕ → List ℕ) (n : ℕ) (r : List ℕ)
      → Runs k st n r
      → Holds (λ (o : Outcome × Kernel). IsSound o.1) (halt c status k)
  halt-IsSound status k st n [] h = last-IsSound status k st n h
  halt-IsSound status k st n (p ∷ r) h = inner-IsSound status k st n p r h
