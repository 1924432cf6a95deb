-- ===== src/Common/Bits.antt =====
-- `|` of a number with clear low bits and flags that fit in those bits is a sum.
use Prim.Native.Nat.{
  ℕ, zero, suc, ◌+◌, ◌*◌, ◌/◌, ◌%◌, ◌^◌, ◌≤◌, ◌<◌, max, bit_or, digits, bit_or-bitwise,
}
use mathlib.Core.Path.{◌≡◌, refl, ◌∙◌}
use native.Mathlib.Nat.{pow-suc}
use native.Mathlib.Omega.{arith}

-- The digits of `a | b`, at most `fuel` of `a`; the rest of `b` stands above them.
abbrev joined : ℕ → ℕ → ℕ → ℕ
joined fuel a b = digits (λ rest. rest) max fuel a b

joined-zero : (fuel b : ℕ) → joined fuel 0 b ≡ b
joined-zero zero b = refl
joined-zero (suc fuel) b = refl

-- The lowest digit, whatever `a` is.
joined_lowest :
    (fuel a b : ℕ) → joined (suc fuel) a b ≡ max (a % 2) (b % 2) + 2 * joined fuel (a / 2) (b / 2)
joined_lowest fuel zero b = omega (arith, joined-zero fuel (b / 2))
joined_lowest fuel (suc a) b = omega arith

joined_alone : (fuel q : ℕ) → q ≤ fuel → joined fuel q 0 ≡ q
joined_alone zero q h = ground arith
joined_alone (suc fuel) q h =
    joined_lowest fuel q 0 ∙ omega (arith, joined_alone fuel (q / 2) (omega arith))

-- A number of `k` digits below the last `1` of a number is added to it.
joined_apart :
    (k fuel q r : ℕ) → q * 2 ^ k ≤ fuel → r < 2 ^ k → joined fuel (q * 2 ^ k) r ≡ q * 2 ^ k + r
joined_apart zero fuel q r h l = ground (arith, joined_alone fuel q)
joined_apart (suc k) zero q r h l = ground (arith, joined-zero 0 r)
joined_apart (suc k) (suc fuel) q r h l =
    let p = q * 2 ^ k in
    let (half, even) : (q * 2 ^ suc k / 2 ≡ p) × (q * 2 ^ suc k ≡ p * 2) =
      rw (pow-suc 2 k) (grind arith) in
    let low : r / 2 < 2 ^ k = grind (arith, pow-suc 2 k) in
    joined_lowest fuel (q * 2 ^ suc k) r
    ∙ rw (half, joined_apart k fuel q (r / 2) (omega arith) low) (omega arith)

pub bit_or-flags : (k q r : ℕ) → r < 2 ^ k → bit_or (q * 2 ^ k) r ≡ q * 2 ^ k + r
bit_or-flags k q r h = bit_or-bitwise (q * 2 ^ k) r ∙ joined_apart k (q * 2 ^ k) q r (omega arith) h
