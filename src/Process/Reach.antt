-- ===== src/Process/Reach.antt =====
-- The states that execute and halt (syscalls.c) lead to, with other parts of the kernel between them.
use ece391_os.Common.{
  ℕ, zero, suc, ◌≤◌, ◌<◌, ◌≡◌, ◌≢◌, pos, refl, sym, ◌∙◌, ap, subst, arith, List, [], ◌∷◌, get_or,
  length, some, Holds-some,
}
use ece391_os.Screen.Cursor.{OnScreen}
use ece391_os.Terminal.{Term}
use ece391_os.Process.Kernel.{Kernel, Call, Outcome, returned, entered, resumed, halts}
use ece391_os.Process.Execute.{execute}
use ece391_os.Process.Halt.{halt}
use ece391_os.Process.Stacks.{IsChain-same, occurrences, push, IsTop}
use ece391_os.Process.Start.{Refines}
use ece391_os.Process.Effect.{Effect, execute-Effect}
use ece391_os.Process.Popping.{Runs}
use ece391_os.Terminal.{Terminals, returned, switch_terminal}
use ece391_os.Terminal.Switch.{
  AreOnScreen, switched, switched-AreOnScreen, switch_terminal-switched, switched-runs,
  switched-numbers,
}
use ece391_os.Process.Sound.{IsSound, halt-IsSound}

-- Before the first process: all six numbers are free and no terminal is active.
pub record IsBooted (k : Kernel) : Type 0 where
  pub numbers : k.pid_array ≡ 0 ∷ 0 ∷ 0 ∷ 0 ∷ 0 ∷ 0 ∷ []
  pub inactive : (i : ℕ) → i < 3 → (k.terminals.term i).active ≡ 0
  pub shown : k.terminals.screen.cur_term < 3
  pub executing : k.terminals.cur_active < 3
  pub cursor : OnScreen k.terminals.screen

-- What every other part of the kernel keeps: the numbers of the processes and what each terminal
-- runs. The shown and the executing terminal are of the three, and the cursor is on the screen.
pub record IsElsewhere (k k' : Kernel) : Type 0 where
  pub numbers : k'.pid_array ≡ k.pid_array
  pub blocks :
      (n : ℕ)
      → ((k'.block n).process_number ≡ (k.block n).process_number)
        × ((k'.block n).parent_process_number ≡ (k.block n).parent_process_number)
  pub runs :
      (i : ℕ)
      → ((k'.terminals.term i).active ≡ (k.terminals.term i).active)
        × ((k'.terminals.term i).apn ≡ (k.terminals.term i).apn)
  pub shown : k'.terminals.screen.cur_term < 3
  pub executing : k'.terminals.cur_active < 3
  pub cursor : OnScreen k'.terminals.screen

-- One call of execute or of halt, of which halt needs a process on the executing terminal, whose
-- descriptors are an array of eight; or what another part does between them.
pub data Step : Kernel → Kernel → Type 0 where
  executes :
      {k k' : Kernel} (c : Call) (command : ℕ) (o : Outcome)
      → 3 ≤ c.depth
      → execute c command k ≡ some (o, k')
      → Step k k'
  ends :
      {k k' : Kernel} (c : Call) (status : ℕ) (o : Outcome)
      → 3 ≤ c.depth
      → (k.terminals.term k.terminals.cur_active).active ≡ 1
      → ((n : ℕ) → length (k.block n).fds ≡ 8)
      → halt c status k ≡ some (o, k')
      → Step k k'
  others : {k k' : Kernel} → IsElsewhere k k' → Step k k'

pub data Reachable : Kernel → Type 0 where
  boots : {k : Kernel} → IsBooted k → Reachable k
  goes : {k k' : Kernel} → Reachable k → Step k k' → Reachable k'

six_free : List ℕ
six_free = 0 ∷ 0 ∷ 0 ∷ 0 ∷ 0 ∷ 0 ∷ []

six_free_lem : (n : ℕ) → get_or six_free n 0 ≡ 0
unfolding six_free
six_free_lem zero = refl
six_free_lem (suc zero) = refl
six_free_lem (suc (suc zero)) = refl
six_free_lem (suc (suc (suc zero))) = refl
six_free_lem (suc (suc (suc (suc zero)))) = refl
six_free_lem (suc (suc (suc (suc (suc zero))))) = refl
six_free_lem (suc (suc (suc (suc (suc (suc n)))))) = refl

booted-Refines : (k : Kernel) → IsBooted k → Refines k (λ i. [])
unfolding occurrences six_free
booted-Refines k b =
    let free : (n : ℕ) → get_or k.pid_array n 0 ≡ 0 =
      λ n. ap (λ (ps : List ℕ). get_or ps n 0) b.numbers ∙ six_free_lem n in
    record {
      table = record {
        six = ap length b.numbers;
        marked = λ n. omega (arith, free n);
        placed = λ n. sym (free n);
        chains = λ i l. tt;
        tops = b.inactive;
      };
      shown = b.shown;
      executing = b.executing;
      cursor = b.cursor;
    }

-- An active terminal's stack has a process on top.
active-Runs :
    (k : Kernel) (st : ℕ → List ℕ) (xs : List ℕ)
    → Refines k st
    → (k.terminals.term k.terminals.cur_active).active ≡ 1
    → ((n : ℕ) → length (k.block n).fds ≡ 8)
    → st k.terminals.cur_active ≡ xs
    → (n : ℕ) × (r : List ℕ) × Runs k st n r
active-Runs k st [] h a l e =
    let i = k.terminals.cur_active in
    let none : (k.terminals.term i).active ≡ 0 =
      subst (IsTop (k.terminals.term i)) e (h.table.tops i h.executing) in
    absurd (omega (arith, none, a))
active-Runs k st (n ∷ r) h a l e = (n, r, record { refines = h; stack = e; eight = l n })

IsTop-same :
    (t t' : Term) (xs : List ℕ)
    → (t'.active ≡ t.active) × (t'.apn ≡ t.apn)
    → IsTop t xs
    → IsTop t' xs
IsTop-same t t' [] (a, b) h = a ∙ h
IsTop-same t t' (n ∷ r) (a, b) (p, q) = (a ∙ p, b ∙ q)

IsElsewhere-Refines :
    {k k' : Kernel} {st : ℕ → List ℕ} → IsElsewhere k k' → Refines k st → Refines k' st
IsElsewhere-Refines {k} {k'} {st} e h =
    let same : (n : ℕ) → get_or k'.pid_array n 0 ≡ get_or k.pid_array n 0 =
      λ n. ap (λ (ps : List ℕ). get_or ps n 0) e.numbers in
    record {
      table = record {
        six = ap length e.numbers ∙ h.table.six;
        marked = λ n. omega (arith, same n, h.table.marked n);
        placed = λ n. h.table.placed n ∙ sym (same n);
        chains =
            λ i l. IsChain-same k.block k'.block (st i) (λ j o. e.blocks j) (h.table.chains i l);
        tops = λ i l.
            IsTop-same (k.terminals.term i) (k'.terminals.term i) (st i) (e.runs i)
              (h.table.tops i l);
      };
      shown = e.shown;
      executing = e.executing;
      cursor = e.cursor;
    }

Step-IsSound : {k k' : Kernel} → Step k k' → IsSound k → IsSound k'
Step-IsSound (executes {k} {k'} c command o deep e) (st, h) =
    let ran =
      Holds-some (Effect st k.terminals.screen.cur_term) (execute c command k) (o, k') e
        (execute-Effect c deep st command k h) in
    effect_sound o k' st k.terminals.screen.cur_term ran
  where
    effect_sound :
        (o : Outcome) (k' : Kernel) (st : ℕ → List ℕ) (shown : ℕ)
        → Effect st shown (o, k')
        → IsSound k'
    effect_sound (returned r) k' st shown h = (st, h)
    effect_sound (entered e) k' st shown (n, l, h) = (push shown n st, h)
    effect_sound (resumed s ksp kbp) k' st shown h = absurd h
    effect_sound halts k' st shown h = (st, h)
Step-IsSound (ends {k} {k'} c status o deep a l e) (st, h) =
    let (n, r, runs) = active-Runs k st (st k.terminals.cur_active) h a l refl in
    Holds-some (λ (o : Outcome × Kernel). IsSound o.1) (halt c status k) (o, k') e
      (halt-IsSound c deep status k st n r runs)
Step-IsSound (others e) (st, h) = (st, IsElsewhere-Refines e h)

-- In every state that calls of execute, calls of halt while the executing terminal is active and the
-- descriptors of each process are eight, and steps of other parts that keep what the terminals run
-- lead to, the process table is a stack of processes for each terminal: each of the six
-- numbers stands in exactly one place of the stacks if pid_array marks it, and in none if not; each
-- process has the one under it as its parent, and the lowest itself; an active terminal's `apn` is
-- the process on top, and a terminal without one is not active; and the cursor is on the screen.
pub Reachable-IsSound : {k : Kernel} → Reachable k → IsSound k
Reachable-IsSound (boots {k} b) = (λ i. [], booted-Refines k b)
Reachable-IsSound (goes r s) = Step-IsSound s (Reachable-IsSound r)

-- A switch to another active terminal (terminal.c) is such a step of another part.
pub switch_terminal-IsElsewhere :
    (fuel n : ℕ) (k : Kernel)
    → AreOnScreen k.terminals
    → n < 3
    → n ≢ k.terminals.screen.cur_term
    → (k.terminals.term n).active ≡ 1
    → k.terminals.cur_active < 3
    → 3 ≤ fuel
    → (s : Terminals) × (switch_terminal fuel n k.terminals ≡ some (returned (pos 0), s))
      × IsElsewhere k (record k { terminals = s })
switch_terminal-IsElsewhere fuel n k v l d a e h =
    let (shown, executing) = switched-numbers n k.terminals in
    let on = switched-AreOnScreen n k.terminals v d in
    (
      switched n k.terminals,
      switch_terminal-switched fuel n k.terminals v l d a h,
      record {
        numbers = refl;
        blocks = λ i. (refl, refl);
        runs = switched-runs n k.terminals;
        shown = rw shown l;
        executing = rw executing e;
        cursor = on.shown;
      },
    )
