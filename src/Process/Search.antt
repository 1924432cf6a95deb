-- ===== src/Process/Search.antt =====
-- The search of sys_open (syscalls.c) for a free descriptor.
use ece391_os.Common.{
  ℕ, zero, suc, ◌+◌, ◌≤◌, ◌<◌, ◌≡◌, ◌≢◌, refl, ◌∙◌, ap, subst, arith, ◌==◌, Bool-cases,
  Option-cases, inl, inr, Option, none, some, List, set,
}
use ece391_os.Process.Descriptors.{FileDesc, desc, claim_from}

-- What the search of sys_open from entry `i` on finds: the first free entry, marked.
abbrev pub Claimed : List FileDesc → ℕ → Option (ℕ × List FileDesc) → Type 0
Claimed fds i none = (j : ℕ) → i ≤ j → j < 8 → (desc fds j).flags ≢ 0
Claimed fds i (some (k, fds')) =
    (i ≤ k)
    × (k < 8)
    × ((desc fds k).flags ≡ 0)
    × ((j : ℕ) → i ≤ j → j < k → (desc fds j).flags ≢ 0)
    × (fds' ≡ set fds k (record (desc fds k) { flags = 1; file_position = 0 }))

Claimed-later :
    (fds : List FileDesc) (i : ℕ) (x : Option (ℕ × List FileDesc))
    → (desc fds i).flags ≢ 0
    → Claimed fds (i + 1) x
    → Claimed fds i x
Claimed-later fds i none u h = λ j p q. ground (arith, u, h j)
Claimed-later fds i (some (k, fds')) u (a, b, c, d, e) =
    (omega arith, b, c, λ j p q. ground (arith, u, d j), e)

pub claim_from-Claimed :
    (r i : ℕ) (fds : List FileDesc) → i < 8 → i + r ≡ 8 → Claimed fds i (claim_from r fds i)
unfolding claim_from
claim_from-Claimed zero i fds l h = absurd (omega arith)
claim_from-Claimed (suc r) i fds l h = elim (Bool-cases ((desc fds i).flags == 0)) [
  | inl free ↦ rw free (omega arith, l, ground (arith, free), λ j p q. absurd (omega arith), refl)
  | inr used ↦
      let u : (desc fds i).flags ≢ 0 = ground (arith, used) in
      elim (Bool-cases (i == 7)) [
        | inl last ↦ rw (used, last) (λ j p q. ground (arith, u, last))
        | inr more ↦
            rw (used, more)
              (Claimed-later fds i (claim_from r fds (i + 1)) u
                (claim_from-Claimed r (i + 1) fds (ground (arith, more)) (omega arith)))
      ]
]

-- `k` is the least free descriptor of those that sys_open hands out.
pub record IsLeastFree (fds : List FileDesc) (k : ℕ) : Type 0 where
  pub low : 2 ≤ k
  pub was : (desc fds k).flags ≡ 0
  pub least : (i : ℕ) → 2 ≤ i → i < k → (desc fds i).flags ≢ 0

-- The search with a free entry at `j`.
pub claimed_free :
    (j : ℕ) (fds : List FileDesc)
    → 2 ≤ j
    → j < 8
    → (desc fds j).flags ≡ 0
    → (k : ℕ) × (k ≤ j)
      × IsLeastFree fds k
      × (claim_from 6 fds 2
          ≡ some (k, set fds k (record (desc fds k) { flags = 1; file_position = 0 })))
claimed_free j fds p q free =
    let found = claim_from-Claimed 6 2 fds (omega arith) refl in
    elim (Option-cases (claim_from 6 fds 2)) [
      | inl e ↦ absurd (subst (Claimed fds 2) e found j p q free)
      | inr ((k, fds'), e) ↦
          let (low, high, was, least, marked) = subst (Claimed fds 2) e found in
          (
            k,
            ground (arith, least j),
            record { low = low; was = was; least = least },
            e ∙ ap (λ x. some (k, x)) marked,
          )
    ]
