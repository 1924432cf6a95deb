-- ===== src/Process/Moves.antt =====
-- A process more, or one less, on the stacks of the process table (syscalls.c).
use ece391_os.Common.{
  ℕ, ◌≤◌, ◌<◌, ◌≡◌, ◌≢◌, refl, sym, ◌∙◌, ap, subst, arith, ◌==◌, Bool-cases, inl, inr, List, [],
  ◌∷◌, get_or, set, length-set, get_or-set_self, get_or-set_ne, pos, true, ne→==,
}
use ece391_os.Terminal.{Term, put}
use ece391_os.Process.Kernel.{ProcessBlock, put_block}
use ece391_os.Process.Stacks.{
  occurrences, push, under, pop, IsChain, IsTop, IsTable, IsChain-same, total-push, total-pop,
  taken,
}

-- The parent that a new process on top of the stack is to have.
abbrev pub parent_on : ℕ → List ℕ → ℕ
parent_on n [] = n
parent_on n (p ∷ r) = p

IsChain-new :
    (block : ℕ → ProcessBlock) (n : ℕ) (xs : List ℕ)
    → (block n).process_number ≡ n
    → (block n).parent_process_number ≡ parent_on n xs
    → IsChain block xs
    → IsChain block (n ∷ xs)
IsChain-new block n [] p q c = (p, q)
IsChain-new block n (x ∷ xs) p q c = (p, q, c)

under-IsChain :
    (block : ℕ → ProcessBlock) (xs : List ℕ) → IsChain block xs → IsChain block (under xs)
under-IsChain block [] c = c
under-IsChain block (n ∷ []) c = tt
under-IsChain block (n ∷ x ∷ r) (p, q, c) = c

module _ {pids : List ℕ} {block : ℕ → ProcessBlock} {term : ℕ → Term} {st : ℕ → List ℕ}
    (t : IsTable pids block term st) where
  untaken : (n i j : ℕ) → i < 3 → get_or pids n 0 ≡ 0 → occurrences j (st i) ≢ 0 → n ≢ j
  untaken n i j h f o = λ e. ground (arith, taken t j i h o, f, ap (λ m. get_or pids m 0) e)

  -- The table after a process `n` started on terminal `i`.
  pub push-IsTable :
      (n i : ℕ) (b : ProcessBlock) (new : Term)
      → i < 3
      → n < 6
      → get_or pids n 0 ≡ 0
      → b.process_number ≡ n
      → b.parent_process_number ≡ parent_on n (st i)
      → new.active ≡ 1
      → new.apn ≡ pos n
      → IsTable (set pids n 1) (put_block n b block) (put i new term) (push i n st)
  unfolding put_block put push
  push-IsTable n i b new h l f p q a e =
      let here : get_or (set pids n 1) n 0 ≡ 1 = get_or-set_self pids n 1 0 (rw t.six l) in
      let kept : (j : ℕ) → j < 3 → IsChain (put_block n b block) (st j) = λ j k.
        IsChain-same block (put_block n b block) (st j)
          (λ m o. let d = ne→== n m (untaken n j m k f o) in rw d (refl, refl)) (t.chains j k) in
      let self : (n == n) ≡ true = ground arith in
      record {
        six = length-set pids n 1 ∙ t.six;
        marked = λ m. elim (Bool-cases (n == m)) [
          | inl y ↦
              let z : n ≡ m = ground (arith, y) in
              subst (λ m. get_or (set pids n 1) m 0 ≤ 1) z (rw here (omega arith))
          | inr d ↦ rw (get_or-set_ne pids n m 1 0 (ground (arith, d))) (t.marked m)
        ];
        placed = λ m. elim (Bool-cases (n == m)) [
          | inl y ↦
              let z : n ≡ m = ground (arith, y) in
              let now : get_or (set pids n 1) m 0 ≡ 1 =
                ap (λ m. get_or (set pids n 1) m 0) (sym z) ∙ here in
              let before : get_or pids m 0 ≡ 0 = ap (λ m. get_or pids m 0) (sym z) ∙ f in
              rw now (ground (arith, total-push n m i st h, t.placed m, before, y))
          | inr d ↦
              rw (get_or-set_ne pids n m 1 0 (ground (arith, d)))
                (ground (arith, total-push n m i st h, t.placed m, d))
        ];
        chains = λ j k. elim (Bool-cases (i == j)) [
          | inl y ↦
              let z : i ≡ j = ground (arith, y) in
              rw y (
                IsChain-new (put_block n b block) n (st j) (rw self p)
                  (rw self (q ∙ ap (λ j. parent_on n (st j)) z)) (kept j k))
          | inr d ↦ rw d (kept j k)
        ];
        tops =
            λ j k. elim (Bool-cases (i == j)) [ inl y ↦ rw y (a, e) | inr d ↦ rw d (t.tops j k) ];
      }

  -- The table after the process `n` on top of terminal `i` ended.
  pub pop-IsTable :
      (n i : ℕ) (r : List ℕ) (block' : ℕ → ProcessBlock) (old : Term)
      → i < 3
      → st i ≡ n ∷ r
      → ((j : ℕ)
          → ((block' j).process_number ≡ (block j).process_number)
            × ((block' j).parent_process_number ≡ (block j).parent_process_number))
      → IsTop old r
      → IsTable (set pids n 0) block' (put i old term) (pop i st)
  unfolding put pop occurrences
  pop-IsTable n i r block' old h e same top =
      let (one, l) = taken t n i h (rw e (ground arith)) in
      let here : get_or (set pids n 0) n 0 ≡ 0 = get_or-set_self pids n 0 0 (rw t.six l) in
      let kept : (j : ℕ) → j < 3 → IsChain block' (st j) =
        λ j k. IsChain-same block block' (st j) (λ m o. same m) (t.chains j k) in
      record {
        six = length-set pids n 0 ∙ t.six;
        marked = λ m. elim (Bool-cases (n == m)) [
          | inl y ↦
              let z : n ≡ m = ground (arith, y) in
              subst (λ m. get_or (set pids n 0) m 0 ≤ 1) z (rw here (omega arith))
          | inr d ↦ rw (get_or-set_ne pids n m 0 0 (ground (arith, d))) (t.marked m)
        ];
        placed = λ m. elim (Bool-cases (n == m)) [
          | inl y ↦
              let z : n ≡ m = ground (arith, y) in
              let now : get_or (set pids n 0) m 0 ≡ 0 =
                ap (λ m. get_or (set pids n 0) m 0) (sym z) ∙ here in
              let before : get_or pids m 0 ≡ 1 = ap (λ m. get_or pids m 0) (sym z) ∙ one in
              rw now (ground (arith, total-pop n m i r st h e, t.placed m, before, y))
          | inr d ↦
              rw (get_or-set_ne pids n m 0 0 (ground (arith, d)))
                (ground (arith, total-pop n m i r st h e, t.placed m, d))
        ];
        chains = λ j k. elim (Bool-cases (i == j)) [
          | inl y ↦ rw y (under-IsChain block' (st j) (kept j k))
          | inr d ↦ rw d (kept j k)
        ];
        tops = λ j k. elim (Bool-cases (i == j)) [
          | inl y ↦
              let z : i ≡ j = ground (arith, y) in
              let f : under (st j) ≡ r = ap (λ j. under (st j)) (sym z) ∙ ap under e in
              rw (y, f) top
          | inr d ↦ rw d (t.tops j k)
        ];
      }
