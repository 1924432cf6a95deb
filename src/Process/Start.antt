-- ===== src/Process/Start.antt =====
-- A process that execute (syscalls.c) starts goes on top of the shown terminal's stack.
use ece391_os.Common.{
  ℕ, ◌+◌, ◌%◌, ◌^◌, ◌<◌, ◌≡◌, ◌≢◌, refl, ap, arith, ◌==◌, Bool-cases, inl, inr, if◌then◌else◌, List,
  [], ◌∷◌, get_or, set, ne→==, some,
}
use ece391_os.Memory.{Mem}
use ece391_os.CString.Length.{EndsAt}
use ece391_os.CString.Copy.{Apart, strcpy_lem}
use ece391_os.Memory.Copy.{copied}
use ece391_os.Screen.Cursor.{OnScreen}
use ece391_os.Terminal.{Term}
use ece391_os.Process.Kernel.{ProcessBlock, Kernel, Call, entered, put_block, process_of, argbuf_at}
use ece391_os.Process.Execute.{started, start_process, loaded}
use ece391_os.Process.Stacks.{occurrences, push, IsChain, IsTop, IsTable, taken}
use ece391_os.Process.Moves.{parent_on, push-IsTable}

-- The stacks `st` are those of the state, the numbers of its terminals are of the three, and the
-- cursor is on the screen.
pub record Refines (k : Kernel) (st : ℕ → List ℕ) : Type 0 where
  pub table : IsTable k.pid_array k.block k.terminals.term st
  pub shown : k.terminals.screen.cur_term < 3
  pub executing : k.terminals.cur_active < 3
  pub cursor : OnScreen k.terminals.screen

-- The parent that execute finds is the process on top.
parent_found :
    (block : ℕ → ProcessBlock) (n : ℕ) (b : ProcessBlock) (t : Term) (xs : List ℕ)
    → IsTop t xs
    → IsChain block xs
    → ((j : ℕ) → occurrences j xs ≢ 0 → (n ≢ j) × (j < 6))
    → (if t.active == 0 then n else (put_block n b block (process_of t)).process_number)
      ≡ parent_on n xs
unfolding put_block occurrences
parent_found block n b t [] top c d = rw top refl
parent_found block n b t (p ∷ []) (a, e) (c, c') d =
    let (other, small) = d p (ground arith) in
    let small' : p % 2 ^ 32 ≡ p = omega arith in rw (a, e, small', ne→== n p other) c
parent_found block n b t (p ∷ q ∷ r) (a, e) (c, c1, c2) d =
    let (other, small) = d p (ground arith) in
    let small' : p % 2 ^ 32 ≡ p = omega arith in rw (a, e, small', ne→== n p other) c

now_active : (t : Term) (xs : List ℕ) → IsTop t xs → (if t.active == 0 then 1 else t.active) ≡ 1
now_active t [] a = rw a refl
now_active t (p ∷ r) (a, e) = rw a refl

pub started-Refines :
    (c : Call) (n : ℕ) (m : Mem) (k : Kernel) (pids : List ℕ) (st : ℕ → List ℕ)
    → Refines (record k { pid_array = pids }) st
    → k.pid_array ≡ set pids n 1
    → n < 6
    → get_or pids n 0 ≡ 0
    → Refines (started c n m k) (push k.terminals.screen.cur_term n st)
unfolding started put_block
started-Refines c n m k pids st h e l f =
    let shown = k.terminals.screen.cur_term in
    let t = k.terminals.term shown in
    let b = record (k.block n) { parent_kbp = c.ebp; parent_ksp = c.esp; process_number = n } in
    let parent =
      parent_found k.block n b t (st shown) (h.table.tops shown h.shown)
        (h.table.chains shown h.shown)
        (λ j o.
          let (one, small) = taken h.table j shown h.shown o in
          (λ z. ground (arith, one, f, ap (λ i. get_or pids i 0) z), small)) in
    record {
      table = rw e (
          push-IsTable h.table n shown _ _ h.shown l f refl parent
            (now_active t (st shown) (h.table.tops shown h.shown)) refl);
      shown = h.shown;
      cursor = h.cursor;
      executing = elim (Bool-cases (t.active == 0)) [
        | inl y ↦ rw y h.shown
        | inr y ↦ rw y h.executing
      ];
    }

-- In a state that refines stacks, and with an argument that ends within the bound and apart from the
-- PCB's copy, a process with the free number `n` starts: it is on top
-- of the shown terminal's stack, with the process that was there, or itself, as its parent; it enters
-- the program, whose file is read to its page, with its own copy of the argument.
pub start_process-push :
    (c : Call) (inode entry n len : ℕ) (k : Kernel) (pids : List ℕ) (st : ℕ → List ℕ)
    → Refines (record k { pid_array = pids }) st
    → k.pid_array ≡ set pids n 1
    → n < 6
    → get_or pids n 0 ≡ 0
    → EndsAt (loaded c inode n k.memory) c.arg len
    → Apart (argbuf_at n) c.arg (len + 1)
    → len < c.chars
    → (k' : Kernel) × (start_process c inode entry n k ≡ some (entered entry, k'))
      × Refines k' (push k.terminals.screen.cur_term n st)
      × ((b : ℕ) → k'.memory b ≡ copied (loaded c inode n k.memory) (argbuf_at n) c.arg (len + 1) b)
unfolding start_process started
start_process-push c inode entry n len k pids st h e l f a p q =
    let (m, copies, bytes) =
      strcpy_lem c.chars (loaded c inode n k.memory) (argbuf_at n) c.arg len a p q in
    (started c n m k, rw copies refl, started-Refines c n m k pids st h e l f, bytes)
