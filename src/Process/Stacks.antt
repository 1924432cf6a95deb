-- ===== src/Process/Stacks.antt =====
-- The processes of syscalls.c as a stack for each terminal: the process that runs on top, under it
-- the one that started it, and the terminal's first at the bottom.
use ece391_os.Common.{
  ℕ, zero, suc, ◌+◌, ◌≤◌, ◌<◌, ◌≡◌, ◌≢◌, refl, ◌∙◌, arith, ◌==◌, if◌then◌else◌, List, [], ◌∷◌,
  get_or, length, pos,
}
use ece391_os.Terminal.{Term}
use ece391_os.Process.Kernel.{ProcessBlock}

-- How often `n` stands in the list.
unfoldable pub occurrences : ℕ → List ℕ → ℕ
occurrences n [] = 0
occurrences n (x ∷ xs) = (if x == n then 1 else 0) + occurrences n xs

abbrev pub total : ℕ → (ℕ → List ℕ) → ℕ
total n st = occurrences n (st 0) + occurrences n (st 1) + occurrences n (st 2)

-- The stack of one terminal with a process more, and with one less.
unfoldable pub push : ℕ → ℕ → (ℕ → List ℕ) → ℕ → List ℕ
push i n st j = if i == j then n ∷ st j else st j

abbrev pub under : List ℕ → List ℕ
under [] = []
under (x ∷ xs) = xs

unfoldable pub pop : ℕ → (ℕ → List ℕ) → ℕ → List ℕ
pop i st j = if i == j then under (st j) else st j

-- A process has its own number, and its parent's is the next on the stack, or at the bottom its own.
abbrev pub IsChain : (ℕ → ProcessBlock) → List ℕ → Type 0
IsChain block [] = Unit {0}
IsChain block (n ∷ []) = ((block n).process_number ≡ n) × ((block n).parent_process_number ≡ n)
IsChain block (n ∷ p ∷ r) =
    ((block n).process_number ≡ n) × ((block n).parent_process_number ≡ p) × IsChain block (p ∷ r)

-- The terminal runs the process on top, or none.
abbrev pub IsTop : Term → List ℕ → Type 0
IsTop t [] = t.active ≡ 0
IsTop t (n ∷ r) = (t.active ≡ 1) × (t.apn ≡ pos n)

-- `st` are the stacks of the table: what pid_array marks as taken stands in exactly one place of
-- them.
pub record IsTable (pids : List ℕ) (block : ℕ → ProcessBlock) (term : ℕ → Term) (st : ℕ → List ℕ)
    : Type 0 where
  pub six : length pids ≡ 6
  pub marked : (n : ℕ) → get_or pids n 0 ≤ 1
  pub placed : (n : ℕ) → total n st ≡ get_or pids n 0
  pub chains : (i : ℕ) → i < 3 → IsChain block (st i)
  pub tops : (i : ℕ) → i < 3 → IsTop (term i) (st i)

pub IsChain-same :
    (block block' : ℕ → ProcessBlock) (xs : List ℕ)
    → ((j : ℕ)
        → occurrences j xs ≢ 0
        → ((block' j).process_number ≡ (block j).process_number)
          × ((block' j).parent_process_number ≡ (block j).parent_process_number))
    → IsChain block xs
    → IsChain block' xs
unfolding occurrences
IsChain-same block block' [] h c = tt
IsChain-same block block' (n ∷ []) h (p, q) = let (a, b) = h n (ground arith) in (a ∙ p, b ∙ q)
IsChain-same block block' (n ∷ x ∷ r) h (p, q, c) =
    let (a, b) = h n (ground arith) in
    (a ∙ p, b ∙ q, IsChain-same block block' (x ∷ r) (λ j o. h j (ground (arith, o))) c)

pub occurrences-total : (n i : ℕ) (st : ℕ → List ℕ) → i < 3 → occurrences n (st i) ≤ total n st
occurrences-total n zero st h = omega arith
occurrences-total n (suc zero) st h = omega arith
occurrences-total n (suc (suc zero)) st h = omega arith
occurrences-total n (suc (suc (suc i))) st h = absurd (omega arith)

pub total-push :
    (n m i : ℕ) (st : ℕ → List ℕ)
    → i < 3
    → total m (push i n st) ≡ total m st + (if n == m then 1 else 0)
unfolding push occurrences
total-push n m zero st h = omega arith
total-push n m (suc zero) st h = omega arith
total-push n m (suc (suc zero)) st h = omega arith
total-push n m (suc (suc (suc i))) st h = absurd (omega arith)

pub total-pop :
    (n m i : ℕ) (r : List ℕ) (st : ℕ → List ℕ)
    → i < 3
    → st i ≡ n ∷ r
    → total m (pop i st) + (if n == m then 1 else 0) ≡ total m st
unfolding pop occurrences
total-pop n m zero r st h e = rw e (omega arith)
total-pop n m (suc zero) r st h e = rw e (omega arith)
total-pop n m (suc (suc zero)) r st h e = rw e (omega arith)
total-pop n m (suc (suc (suc i))) r st h e = absurd (omega arith)

get_or_behind : (xs : List ℕ) (n : ℕ) → length xs ≤ n → get_or xs n 0 ≡ 0
get_or_behind [] n h = refl
get_or_behind (x ∷ xs) zero h = absurd (omega arith)
get_or_behind (x ∷ xs) (suc n) h = get_or_behind xs n (omega arith)

-- What stands on a stack is taken, and below 6.
pub taken :
    {pids : List ℕ} {block : ℕ → ProcessBlock} {term : ℕ → Term} {st : ℕ → List ℕ}
    (t : IsTable pids block term st) (n i : ℕ)
    → i < 3
    → occurrences n (st i) ≢ 0
    → (get_or pids n 0 ≡ 1) × (n < 6)
taken {pids} {st = st} t n i h o =
    let one : get_or pids n 0 ≡ 1 =
      omega (arith, t.marked n, t.placed n, occurrences-total n i st h) in
    (one, ground (arith, one, t.six, get_or_behind pids n))
