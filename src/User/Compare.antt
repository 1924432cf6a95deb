-- ===== src/User/Compare.antt =====
-- The comparisons of ece391support.c against the texts of the strings.
use ece391_os.Common.{
  ℕ, zero, suc, ◌+◌, ◌<◌, ◌≡◌, ◌≢◌, ◌↔◌, refl, sym, ◌∙◌, ap, arith, ◌==◌, Bool-cases, inl, inr,
  Option, some, List, [], ◌∷◌, length, ℤ, pos, sub_ℕ,
}
use ece391_os.Memory.{Mem}
use ece391_os.CString.Length.{text}
use ece391_os.Print.Text.{IsText}
use ece391_os.User.{ece391_strcmp, ece391_strncmp}

-- ece391_strncmp gives 0 exactly for strings with the same text up to `n` characters.
pub ece391_strncmp-zero_iff :
    (n : ℕ) (m : Mem) (s1 s2 : ℕ) → (ece391_strncmp m s1 s2 n ≡ pos 0) ↔ (text n m s1 ≡ text n m s2)
unfolding ece391_strncmp text
ece391_strncmp-zero_iff zero m s1 s2 = (λ h. refl, λ h. refl)
ece391_strncmp-zero_iff (suc n) m s1 s2 =
    let ih = ece391_strncmp-zero_iff n m (s1 + 1) (s2 + 1) in
    (λ e. ground (arith, ih.0), λ e. ground (arith, ih.1))

-- What ece391_strcmp gives for two strings.
abbrev pub IsVerdict : List ℕ → List ℕ → Option ℤ → Type 0
IsVerdict xs ys x = (r : ℤ) × (x ≡ some r) × ((r ≡ pos 0) ↔ (xs ≡ ys))

differ-IsVerdict :
    (a b : ℕ) (xs ys : List ℕ) (x : Option ℤ)
    → a ≢ b
    → xs ≢ ys
    → x ≡ some (sub_ℕ a b)
    → IsVerdict xs ys x
differ-IsVerdict a b xs ys x d n e = (sub_ℕ a b, e, (λ h. absurd (ground arith), λ h. absurd (n h)))

-- ece391_strcmp returns for two strings, with a bound above the length of the first, and gives 0
-- exactly if they are the same.
pub ece391_strcmp-IsVerdict :
    (fuel : ℕ) (m : Mem) (s1 s2 : ℕ) (xs ys : List ℕ)
    → IsText m s1 xs
    → IsText m s2 ys
    → length xs < fuel
    → IsVerdict xs ys (ece391_strcmp fuel m s1 s2)
unfolding ece391_strcmp
ece391_strcmp-IsVerdict zero m s1 s2 xs ys t u h = absurd (omega arith)
ece391_strcmp-IsVerdict (suc fuel) m s1 s2 [] [] t u h =
    (pos 0, ground (arith, t, u), (λ e. refl, λ e. refl))
ece391_strcmp-IsVerdict (suc fuel) m s1 s2 [] (y ∷ ys) t (p, q, r) h =
    differ-IsVerdict (m s1) (m s2) [] (y ∷ ys) _ (λ e. q (sym p ∙ (sym e ∙ t)))
      (λ e. absurd (omega (arith, ap length e))) (ground (arith, t, p, q))
ece391_strcmp-IsVerdict (suc fuel) m s1 s2 (x ∷ xs) [] (p, q, r) u h =
    differ-IsVerdict (m s1) (m s2) (x ∷ xs) [] _ (λ e. q (sym p ∙ (e ∙ u)))
      (λ e. absurd (omega (arith, ap length e))) (ground (arith, u, p, q))
ece391_strcmp-IsVerdict (suc fuel) m s1 s2 (x ∷ xs) (y ∷ ys) (p, q, r) (p', q', r') h =
    elim (Bool-cases (x == y)) [
      | inl same ↦
          let z : x ≡ y = ground (arith, same) in
          let (v, e, iff) =
            ece391_strcmp-IsVerdict fuel m (s1 + 1) (s2 + 1) xs ys r r' (omega arith) in
          (
            v,
            ground (arith, p, p', q, z, e),
            (λ o. ap (λ t. x ∷ t) (iff.0 o) ∙ ap (λ h. h ∷ ys) z, λ o. iff.1 (ap tail_of o)),
          )
      | inr other ↦
          let n : x ≢ y = ground (arith, other) in
          differ-IsVerdict (m s1) (m s2) (x ∷ xs) (y ∷ ys) _ (λ e. n (sym p ∙ (e ∙ p')))
            (λ e. n (ap head_of e)) (ground (arith, p, p', n))
    ]
  where
    tail_of : List ℕ → List ℕ
    tail_of [] = []
    tail_of (x ∷ xs) = xs

    head_of : List ℕ → ℕ
    head_of [] = 0
    head_of (x ∷ xs) = x
