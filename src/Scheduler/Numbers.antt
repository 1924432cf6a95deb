-- ===== src/Scheduler/Numbers.antt =====
-- The process numbers that get_proc_num (syscalls.c) hands out.
use ece391_os.Common.{
  ℕ, zero, suc, ◌+◌, ◌<◌, ◌≤◌, ◌≡◌, ◌≢◌, negsuc, inl, inr, refl, Bool-cases, arith, ◌==◌, List, [],
  ◌∷◌, length, ap, ◌∙◌, ◌⊎◌, get_or, set, ℤ, pos,
}
use ece391_os.Scheduler.{get_proc_num, proc_num_from}

-- What the result of a search from `i` on with `r` rounds means.
abbrev pub Handed : List ℕ → ℕ → ℕ → ℤ × List ℕ → Type 0
Handed pids i r (pos n, pids') =
    (i ≤ n)
    × (n < i + r)
    × (get_or pids n 1 ≡ 0)
    × ((j : ℕ) → i ≤ j → j < n → get_or pids j 1 ≢ 0)
    × (pids' ≡ set pids n 1)
Handed pids i r (negsuc e, pids') =
    (e ≡ 0) × ((j : ℕ) → i ≤ j → j < i + r → get_or pids j 1 ≢ 0) × (pids' ≡ pids)

-- A search that starts one entry later, after an entry in use.
Handed-later :
    (pids : List ℕ) (i r : ℕ) (x : ℤ × List ℕ)
    → get_or pids i 1 ≢ 0
    → Handed pids (i + 1) r x
    → Handed pids i (suc r) x
Handed-later pids i r (pos n, pids') u (a, b, c, d, e) =
    (omega arith, omega arith, c, λ j p q. ground (arith, u, d j), e)
Handed-later pids i r (negsuc k, pids') u (a, b, c) = (a, λ j p q. ground (arith, u, b j), c)

proc_num_from-Handed : (r : ℕ) (pids : List ℕ) (i : ℕ) → Handed pids i r (proc_num_from r pids i)
unfolding proc_num_from
proc_num_from-Handed zero pids i = (refl, λ j p q. absurd (omega arith), refl)
proc_num_from-Handed (suc r) pids i = elim (Bool-cases (get_or pids i 1 == 0)) [
  | inl free ↦
      rw free (omega arith, omega arith, ground (arith, free), λ j p q. absurd (omega arith), refl)
  | inr used ↦ rw used (
      Handed-later pids i r (proc_num_from r pids (i + 1)) (ground (arith, used))
        (proc_num_from-Handed r pids (i + 1)))
]

-- get_proc_num gives the least free number below 6 and marks it; with no free number it gives -1 and
-- changes nothing.
pub get_proc_num_lem : (pids : List ℕ) → Handed pids 0 6 (get_proc_num pids)
unfolding get_proc_num
get_proc_num_lem pids = proc_num_from-Handed 6 pids 0

get_or_within : (xs : List ℕ) (i d d' : ℕ) → i < length xs → get_or xs i d ≡ get_or xs i d'
get_or_within [] i d d' h = absurd (omega arith)
get_or_within (x ∷ xs) zero d d' h = refl
get_or_within (x ∷ xs) (suc i) d d' h = get_or_within xs i d d' (omega arith)

-- The number that get_proc_num gives for six entries, if any.
pub record IsNumbered (pids : List ℕ) (n : ℕ) : Type 0 where
  pub small : n < 6
  pub free : get_or pids n 0 ≡ 0
  pub least : (j : ℕ) → j < n → get_or pids j 1 ≢ 0
  pub gives : get_proc_num pids ≡ (pos n, set pids n 1)

Handed-cases :
    (pids : List ℕ) (x : ℤ × List ℕ)
    → get_proc_num pids ≡ x
    → length pids ≡ 6
    → Handed pids 0 6 x
    → ((n : ℕ) × IsNumbered pids n)
      ⊎ ((get_proc_num pids ≡ (negsuc 0, pids)) × ((j : ℕ) → j < 6 → get_or pids j 1 ≢ 0))
Handed-cases pids (pos n, pids') e l (a, b, f, g, r) = inl (
  n,
  record {
    small = b;
    free = get_or_within pids n 0 1 (omega arith) ∙ f;
    least = λ j h. g j (omega arith) h;
    gives = e ∙ ap (λ ps. (pos n, ps)) r;
  },
)
Handed-cases pids (negsuc z, pids') e l (a, g, r) =
    inr (e ∙ rw (a, r) refl, λ j h. g j (omega arith) h)

pub get_proc_num_cases :
    (pids : List ℕ)
    → length pids ≡ 6
    → ((n : ℕ) × IsNumbered pids n)
      ⊎ ((get_proc_num pids ≡ (negsuc 0, pids)) × ((j : ℕ) → j < 6 → get_or pids j 1 ≢ 0))
get_proc_num_cases pids l = Handed-cases pids (get_proc_num pids) refl l (get_proc_num_lem pids)
