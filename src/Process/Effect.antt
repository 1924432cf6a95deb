-- ===== src/Process/Effect.antt =====
-- What execute (syscalls.c) does to the stacks of processes, however it ends.
use ece391_os.Common.{
  is_zero, ℕ, ◌≤◌, ◌<◌, ◌≡◌, refl, ◌∙◌, subst, Bool-cases, inl, inr, List, [], ◌∷◌, get_or, set,
  Holds, Holds-bind, Holds-any,
}
use ece391_os.Memory.{Mem, load32}
use ece391_os.CString.{strcpy, strncmp}
use ece391_os.Print.{printf}
use ece391_os.Print.Keep.{printf_keeps}
use ece391_os.FileSystem.{read_dentry_by_name, read_data, inode_number_at}
use ece391_os.Screen.Output.{putc-printed, printed-OnScreen, printed-cur_term}
use ece391_os.Scheduler.Numbers.{get_proc_num_cases}
use ece391_os.Terminal.{Terminals}
use ece391_os.Terminal.Active.{putc_shown}
use ece391_os.Process.Kernel.{
  Kernel, Call, Outcome, returned, entered, resumed, halts, print, argbuf_at,
}
use ece391_os.Process.Command.{parse_command}
use ece391_os.Process.Execute.{
  start_process, loaded, load_process, find_process, run_command, execute, is_elf,
}
use ece391_os.Process.Stacks.{push}
use ece391_os.Process.Start.{Refines, started-Refines}

-- What the stacks are after execute, by how it ends; `shown` is the terminal that is shown.
abbrev pub Effect : (ℕ → List ℕ) → ℕ → Outcome × Kernel → Type 0
Effect st shown (returned r, k) = Refines k st
Effect st shown (entered e, k) = (n : ℕ) × (n < 6) × Refines k (push shown n st)
Effect st shown (resumed s ksp kbp, k) = ⊥
Effect st shown (halts, k) = Refines k st

pub Refines-memory :
    (m : Mem) (k : Kernel) (st : ℕ → List ℕ) → Refines k st → Refines (record k { memory = m }) st
Refines-memory m k st h = record {
  table = h.table;
  shown = h.shown;
  executing = h.executing;
  cursor = h.cursor;
}

module _ (c : Call) (deep : 3 ≤ c.depth) (st : ℕ → List ℕ) where
  putc_keeps :
      (k : Kernel) (x : ℕ) (s : Terminals)
      → Refines (record k { terminals = s }) st × (s.screen.cur_term ≡ k.terminals.screen.cur_term)
      → Holds
          (λ s'.
            Refines (record k { terminals = s' }) st
            × (s'.screen.cur_term ≡ k.terminals.screen.cur_term))
          (putc_shown c.depth x s)
  unfolding putc_shown
  putc_keeps k x s (h, e) =
      let same = printed-cur_term x s.screen in
      rw (putc-printed c.depth x s.screen h.cursor deep) (
        record {
          table = h.table;
          shown = rw same h.shown;
          executing = h.executing;
          cursor = printed-OnScreen x s.screen;
        },
        same ∙ e,
      )

  -- Printing keeps the stacks, and what is shown.
  print-Refines :
      (format : ℕ) (args : List ℕ) (k : Kernel)
      → Refines k st
      → Holds
          (λ k'. Refines k' st × (k'.terminals.screen.cur_term ≡ k.terminals.screen.cur_term))
          (print c format args k)
  unfolding print
  print-Refines format args k h =
      Holds-bind
        (λ (o : ℕ × Mem × Terminals).
          Refines (record k { terminals = o.2 }) st
          × (o.2.screen.cur_term ≡ k.terminals.screen.cur_term))
        _ (printf (putc_shown c.depth) c.chars c.chars c.conv_buf format args k.memory k.terminals)
        _
        (printf_keeps
          (λ s.
            Refines (record k { terminals = s }) st
            × (s.screen.cur_term ≡ k.terminals.screen.cur_term))
          (putc_shown c.depth) (putc_keeps k) c.chars c.chars c.conv_buf format args k.memory
          k.terminals
          (
            record { table = h.table; shown = h.shown; executing = h.executing; cursor = h.cursor },
            refl,
          ))
        (λ o (q, e). (Refines-memory o.1 (record k { terminals = o.2 }) st q, e))

  start_process-Effect :
      (inode entry n : ℕ) (k : Kernel) (pids : List ℕ)
      → Refines (record k { pid_array = pids }) st
      → k.pid_array ≡ set pids n 1
      → n < 6
      → get_or pids n 0 ≡ 0
      → Holds (Effect st k.terminals.screen.cur_term) (start_process c inode entry n k)
  unfolding start_process
  start_process-Effect inode entry n k pids h e l f =
      Holds-bind (λ m. Unit {0}) _ (strcpy c.chars (loaded c inode n k.memory) (argbuf_at n) c.arg)
        _ (Holds-any (strcpy c.chars (loaded c inode n k.memory) (argbuf_at n) c.arg))
        (λ m u. (n, l, started-Refines c n m k pids st h e l f))

  load_process-Effect :
      (inode : ℕ) (k : Kernel)
      → Refines k st
      → Holds (Effect st k.terminals.screen.cur_term) (load_process c inode k)
  unfolding load_process
  load_process-Effect inode k h =
      let m1 = (read_data k.memory c.file_system inode 0 c.buffer 4).1 in
      let m2 = (read_data m1 c.file_system inode 24 c.buffer 4).1 in
      elim (Bool-cases (is_elf m1 c.buffer)) [
        | inr y ↦ rw y (Refines-memory m1 k st h)
        | inl y ↦ elim (get_proc_num_cases k.pid_array h.table.six) [
          | inl (n, new) ↦
              rw (y, new.gives)
                (start_process-Effect inode (load32 m2 c.buffer) n
                  (record k { memory = m2; pid_array = set k.pid_array n 1 }) k.pid_array
                  (Refines-memory m2 k st h) refl new.small new.free)
          | inr (none_left, full) ↦
              rw (y, none_left)
                (Holds-bind
                  (λ k'.
                    Refines k' st × (k'.terminals.screen.cur_term ≡ k.terminals.screen.cur_term))
                  _ (print c c.too_many [] (record k { memory = m2 })) _
                  (print-Refines c.too_many [] (record k { memory = m2 })
                    (Refines-memory m2 k st h))
                  (λ k' (q, e). q))
        ]
      ]

  find_process-Effect :
      (k : Kernel) → Refines k st → Holds (Effect st k.terminals.screen.cur_term) (find_process c k)
  unfolding find_process
  find_process-Effect k h =
      let found =
        read_dentry_by_name c.chars k.memory c.file_system c.parsed_cmd c.test_dentry c.cur_name in
      Holds-bind (λ o. Unit {0}) _ found _ (Holds-any found)
        (λ o u.
          let h' = Refines-memory o.1 k st h in
          elim (Bool-cases (is_zero o.0)) [
            | inl y ↦ rw y (
                load_process-Effect (load32 o.1 (inode_number_at c.test_dentry))
                  (record k { memory = o.1 }) h')
            | inr y ↦ rw y h'
          ])

  run_command-Effect :
      (k : Kernel) → Refines k st → Holds (Effect st k.terminals.screen.cur_term) (run_command c k)
  unfolding run_command
  run_command-Effect k h = elim (Bool-cases (is_zero (strncmp k.memory c.exit c.parsed_cmd 4))) [
    | inl y ↦ rw y h
    | inr y ↦ elim (Bool-cases (is_zero (strncmp k.memory c.term_num c.parsed_cmd 4))) [
      | inl z ↦
          rw (y, z)
            (Holds-bind
              (λ k'. Refines k' st × (k'.terminals.screen.cur_term ≡ k.terminals.screen.cur_term)) _
              (print c c.term_format (k.terminals.screen.cur_term ∷ []) k) _
              (print-Refines c.term_format (k.terminals.screen.cur_term ∷ []) k h)
              (λ k' (q, e).
                subst (λ i. Holds (Effect st i) (find_process c k')) e (find_process-Effect k' q)))
      | inr z ↦ rw (y, z) (find_process-Effect k h)
    ]
  ]

  -- From a state that refines stacks, and with a depth of at least 3 for set_screen_pos, however
  -- execute ends, the stacks of processes are as they were, but that a new process with a number
  -- below 6 is on top of the shown terminal's if it enters one.
  pub execute-Effect :
      (command : ℕ) (k : Kernel)
      → Refines k st
      → Holds (Effect st k.terminals.screen.cur_term) (execute c command k)
  unfolding execute
  execute-Effect command k h =
      let parsed = parse_command c.chars k.memory command c.parsed_cmd c.arg in
      Holds-bind (λ m. Unit {0}) _ parsed _ (Holds-any parsed)
        (λ m u. run_command-Effect (record k { memory = m }) (Refines-memory m k st h))
