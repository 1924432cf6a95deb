-- ===== src/CString/Compare.antt =====
-- strncmp of lib.c against equality of texts.
use ece391_os.Common.{ℕ, zero, suc, ◌+◌, ◌<◌, ◌≡◌, ◌↔◌, refl, arith, pos}
use ece391_os.Memory.{Mem}
use ece391_os.CString.{strncmp_from, strncmp, sub_int8}
use ece391_os.CString.Length.{text}

-- Every cell holds a byte.
abbrev pub AreBytes : Mem → Type 0
AreBytes m = (a : ℕ) → m a < 256

sub_int8-zero : (a b : ℕ) → a < 256 → b < 256 → (sub_int8 a b ≡ pos 0) ↔ (a ≡ b)
sub_int8-zero a b p q = (λ h. ground arith, λ h. ground arith)

strncmp_from_iff :
    (n : ℕ) (m : Mem) (s1 s2 i : ℕ)
    → AreBytes m
    → (strncmp_from n m s1 s2 i ≡ pos 0) ↔ (text n m (s1 + i) ≡ text n m (s2 + i))
unfolding strncmp_from text
strncmp_from_iff zero m s1 s2 i h = (λ _. refl, λ _. refl)
strncmp_from_iff (suc n) m s1 s2 i h =
    let ih = strncmp_from_iff n m s1 s2 (i + 1) h in
    let a1 : s1 + (i + 1) ≡ s1 + i + 1 = omega arith in
    let a2 : s2 + (i + 1) ≡ s2 + i + 1 = omega arith in
    let z = sub_int8-zero (m (s1 + i)) (m (s2 + i)) (h (s1 + i)) (h (s2 + i)) in
    (λ e. ground (arith, ih.0, a1, a2, z.0), λ e. ground (arith, ih.1, a1, a2, z.1))

-- strncmp returns 0 exactly when the two strings have the same text up to `n` characters.
pub strncmp-zero_iff :
    (n : ℕ) (m : Mem) (s1 s2 : ℕ)
    → AreBytes m
    → (strncmp m s1 s2 n ≡ pos 0) ↔ (text n m s1 ≡ text n m s2)
unfolding strncmp
strncmp-zero_iff n m s1 s2 h =
    let (e1, e2) : (s1 + 0 ≡ s1) × (s2 + 0 ≡ s2) = omega arith in
    rw e1 at (rw e2 at (strncmp_from_iff n m s1 s2 0 h))
