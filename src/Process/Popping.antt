-- ===== src/Process/Popping.antt =====
-- What halt (syscalls.c) does to the stacks of processes.
use ece391_os.Common.{
  ℕ, ◌%◌, ◌^◌, ◌≡◌, refl, sym, ◌∙◌, ap, subst, arith, ◌==◌, Bool-cases, inl, inr, List, [], ◌∷◌,
  set, length, pos, uint32, true,
}
use ece391_os.Devices.Rtc.{Rtc}
use ece391_os.Terminal.{Term, put}
use ece391_os.Process.Descriptors.{FileDesc}
use ece391_os.Process.Kernel.{Kernel, ProcessBlock, put_block, process_of}
use ece391_os.Process.Halt.{left, last_left, put_executing}
use ece391_os.Process.Stacks.{occurrences, pop, IsChain, IsTop, IsTable, taken}
use ece391_os.Process.Moves.{parent_on, pop-IsTable}
use ece391_os.Process.Start.{Refines}

-- The executing terminal runs `n`, which `p` started, itself if it is the terminal's first.
pub record Runs (k : Kernel) (st : ℕ → List ℕ) (n : ℕ) (r : List ℕ) : Type 0 where
  pub refines : Refines k st
  pub stack : st k.terminals.cur_active ≡ n ∷ r
  pub eight : length (k.block n).fds ≡ 8

chain_head :
    (block : ℕ → ProcessBlock) (n : ℕ) (r : List ℕ)
    → IsChain block (n ∷ r)
    → ((block n).process_number ≡ n) × ((block n).parent_process_number ≡ parent_on n r)
chain_head block n [] (a, b) = (a, b)
chain_head block n (p ∷ r) (a, b, c) = (a, b)

-- What the state says of the process that runs.
pub record Running (k : Kernel) (n : ℕ) (r : List ℕ) : Type 0 where
  pub here : process_of (k.terminals.term k.terminals.cur_active) ≡ n
  pub number : (k.block n).process_number ≡ n
  pub parent : (k.block n).parent_process_number ≡ parent_on n r

pub running : {k : Kernel} {st : ℕ → List ℕ} {n : ℕ} {r : List ℕ} → Runs k st n r → Running k n r
unfolding occurrences
running {k} {st} {n} {r} h =
    let i = k.terminals.cur_active in
    let t = h.refines.table in
    let low = h.refines.executing in
    let (one, small) = taken t n i low (rw h.stack (ground arith)) in
    let (a, e) : IsTop (k.terminals.term i) (n ∷ r) =
      subst (IsTop (k.terminals.term i)) h.stack (t.tops i low) in
    let (number, parent) =
      chain_head k.block n r (subst (IsChain k.block) h.stack (t.chains i low)) in
    let small' : n % 2 ^ 32 ≡ n = omega arith in
    record { here = ap uint32 e ∙ small'; number = number; parent = parent }

-- The blocks after the loop over the descriptors have the same numbers.
pub same_numbers :
    (block : ℕ → ProcessBlock) (n : ℕ) (fds : List FileDesc) (j : ℕ)
    → let block' = put_block n (record (block n) { fds = fds }) block in
      ((block' j).process_number ≡ (block j).process_number)
      × ((block' j).parent_process_number ≡ (block j).parent_process_number)
unfolding put_block
same_numbers block n fds j = elim (Bool-cases (n == j)) [
  | inl y ↦
      let z : n ≡ j = ground (arith, y) in
      rw y (ap (λ i. (block i).process_number) z, ap (λ i. (block i).parent_process_number) z)
  | inr d ↦ rw d (refl, refl)
]

IsTable-term :
    {pids : List ℕ} {block : ℕ → ProcessBlock} {term term' : ℕ → Term} {st : ℕ → List ℕ}
    → ((j : ℕ) → term' j ≡ term j)
    → IsTable pids block term st
    → IsTable pids block term' st
IsTable-term {st = st} h t = record {
  six = t.six;
  marked = t.marked;
  placed = t.placed;
  chains = t.chains;
  tops = λ i l. subst (λ u. IsTop u (st i)) (sym (h i)) (t.tops i l);
}

-- The table behind the loop, for a terminal entry that fits what is left of the stack.
left-IsTable :
    (k : Kernel) (st : ℕ → List ℕ) (n : ℕ) (r : List ℕ) (closed : List FileDesc × Rtc) (old : Term)
    → Runs k st n r
    → IsTop old r
    → IsTable
        (left k closed).pid_array
        (left k closed).block
        (put k.terminals.cur_active old k.terminals.term)
        (pop k.terminals.cur_active st)
unfolding left put_executing
left-IsTable k st n r closed old h top =
    let i = k.terminals.cur_active in
    let now = running h in
    let after : ℕ → ℕ → ProcessBlock =
      λ m. put_block m (record (k.block m) { fds = closed.0 }) k.block in
    let pids : set k.pid_array (k.block (process_of (k.terminals.term i))).process_number 0
        ≡ set k.pid_array n 0 =
      ap (λ m. set k.pid_array (k.block m).process_number 0) now.here
      ∙ ap (λ m. set k.pid_array m 0) now.number in
    let blocks : after (process_of (k.terminals.term i)) ≡ after n = ap after now.here in
    subst (λ ps. IsTable ps (left k closed).block (put i old k.terminals.term) (pop i st))
      (sym pids)
      (subst (λ b. IsTable (set k.pid_array n 0) b (put i old k.terminals.term) (pop i st))
        (sym blocks)
        (pop-IsTable h.refines.table n i r (after n) old h.refines.executing h.stack
          (same_numbers k.block n closed.0) top))

-- The terminal's entry after a halt with the parent `p` on the stack.
left-IsTop :
    (k : Kernel) (st : ℕ → List ℕ) (n p : ℕ) (r : List ℕ) (closed : List FileDesc × Rtc)
    → Runs k st n (p ∷ r)
    → IsTop ((left k closed).terminals.term k.terminals.cur_active) (p ∷ r)
unfolding left put_executing put
left-IsTop k st n p r closed h =
    let i = k.terminals.cur_active in
    let now = running h in
    let low = h.refines.executing in
    let after : ℕ → ℕ → ProcessBlock =
      λ m. put_block m (record (k.block m) { fds = closed.0 }) k.block in
    let (a, e) : IsTop (k.terminals.term i) (n ∷ p ∷ r) =
      subst (IsTop (k.terminals.term i)) h.stack (h.refines.table.tops i low) in
    let (c1, c2, rest) : IsChain k.block (n ∷ p ∷ r) =
      subst (IsChain k.block) h.stack (h.refines.table.chains i low) in
    let (under_number, q) = chain_head k.block p r rest in
    let self : (i == i) ≡ true = ground arith in
    let apn : (after (process_of (k.terminals.term i))
          (k.block (process_of (k.terminals.term i))).parent_process_number).process_number
        ≡ p =
      ap (λ m. (after m (k.block m).parent_process_number).process_number) now.here
      ∙ ((same_numbers k.block n closed.0 (k.block n).parent_process_number).0
          ∙ (ap (λ m. (k.block m).process_number) c2 ∙ under_number)) in
    rw self (a, ap pos apn)

pub left-Refines :
    (k : Kernel) (st : ℕ → List ℕ) (n p : ℕ) (r : List ℕ) (closed : List FileDesc × Rtc)
    → Runs k st n (p ∷ r)
    → Refines (left k closed) (pop k.terminals.cur_active st)
unfolding left put_executing put
left-Refines k st n p r closed h =
    let i = k.terminals.cur_active in
    let new = (left k closed).terminals.term i in
    record {
      table =
          IsTable-term
            (λ j. elim (Bool-cases (i == j)) [
              | inl y ↦ let self : (i == i) ≡ true = ground arith in rw (y, self) refl
              | inr d ↦ rw d refl
            ])
            (left-IsTable k st n (p ∷ r) closed new h (left-IsTop k st n p r closed h));
      shown = h.refines.shown;
      executing = h.refines.executing;
      cursor = h.refines.cursor;
    }

pub last_left-Refines :
    (k : Kernel) (st : ℕ → List ℕ) (n : ℕ) (closed : List FileDesc × Rtc)
    → Runs k st n []
    → Refines (last_left (left k closed)) (pop k.terminals.cur_active st)
unfolding left last_left put_executing put
last_left-Refines k st n closed h =
    let i = k.terminals.cur_active in
    let new = (last_left (left k closed)).terminals.term i in
    let self : (i == i) ≡ true = ground arith in
    record {
      table =
          IsTable-term
            (λ j. elim (Bool-cases (i == j)) [ inl y ↦ rw (y, self) refl | inr d ↦ rw d refl ])
            (left-IsTable k st n [] closed new h (rw self refl));
      shown = h.refines.shown;
      executing = h.refines.executing;
      cursor = h.refines.cursor;
    }
