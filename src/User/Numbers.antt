-- ===== src/User/Numbers.antt =====
-- ece391_strlen, ece391_strrev and ece391_itoa of ece391support.c against strlen, strrev and itoa of lib.c.
use ece391_os.Common.{
  ℕ, zero, suc, ◌+◌, ◌-◌, ◌≤◌, ◌≡◌, refl, sym, ◌∙◌, ap, arith, ltb, Bool-cases, inl, inr, some,
  Option-cases,
}
use ece391_os.Memory.{Mem, upd}
use ece391_os.CString.{strlen_from, strlen, strrev_loop, strrev_length, strrev, itoa_loop, itoa}
use ece391_os.User.{ece391_strlen_from, ece391_strlen, ece391_strrev, ece391_itoa}

strlen_from-eq :
    (fuel : ℕ) (m : Mem) (s len : ℕ)
    → ece391_strlen_from fuel m (s + len) len ≡ strlen_from fuel m s len
unfolding ece391_strlen_from strlen_from
strlen_from-eq zero m s len = refl
strlen_from-eq (suc fuel) m s len =
    let next : s + len + 1 ≡ s + (len + 1) = omega arith in
    rw (next, strlen_from-eq fuel m s (len + 1)) refl

pub ece391_strlen-strlen : (fuel : ℕ) (m : Mem) (s : ℕ) → ece391_strlen fuel m s ≡ strlen fuel m s
unfolding ece391_strlen strlen
ece391_strlen-strlen fuel m s =
    let here : s ≡ s + 0 = omega arith in
    ap (λ a. ece391_strlen_from fuel m a 0) here ∙ strlen_from-eq fuel m s 0

-- For a string of at most one character the loop of strrev does nothing.
strrev_loop-short : (len : ℕ) (m : Mem) (s : ℕ) → len ≤ 1 → strrev_loop len m s 0 (len - 1) ≡ m
unfolding strrev_loop
strrev_loop-short zero m s h = refl
strrev_loop-short (suc zero) m s h = refl
strrev_loop-short (suc (suc len)) m s h = absurd (omega arith)

pub ece391_strrev-strrev : (fuel : ℕ) (m : Mem) (s : ℕ) → ece391_strrev fuel m s ≡ strrev fuel m s
unfolding ece391_strrev strrev strrev_length
ece391_strrev-strrev fuel m s = elim (Option-cases (strlen fuel m s)) [
  | inl e ↦ rw (ece391_strlen-strlen fuel m s, e) refl
  | inr (len, e) ↦
      rw (ece391_strlen-strlen fuel m s, e)
        (elim (Bool-cases (ltb 1 len)) [
          | inl long ↦ rw long refl
          | inr short ↦ rw short (ap some (sym (strrev_loop-short len m s (ground arith))))
        ])
]

-- The user programs' ece391_itoa is the kernel's itoa.
pub ece391_itoa-itoa :
    (m : Mem) (value buf radix : ℕ) → ece391_itoa m value buf radix ≡ itoa m value buf radix
unfolding ece391_itoa itoa
ece391_itoa-itoa m value buf radix =
    rw
      (ece391_strrev-strrev (value + 1)
        (upd (itoa_loop value m buf value radix).0 (itoa_loop value m buf value radix).1 0) buf)
      refl
