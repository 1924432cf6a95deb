-- ===== src/CString/Digits.antt =====
-- The digits of a number in a radix.
use native.Mathlib.Nat.{pow-suc, div-add-mod}
use ece391_os.Common.{
  ℕ, zero, suc, ◌+◌, ◌*◌, ◌/◌, ◌%◌, ◌^◌, ◌≤◌, ◌<◌, ◌≡◌, arith, ◌==◌, if◌then◌else◌, List, [], ◌∷◌,
  length, get_or, Bool-cases, inl, inr,
}

-- The digits of a number, lowest first, and the number of such a list.
unfoldable pub digits : ℕ → ℕ → ℕ → List ℕ
digits zero v r = []
digits (suc rounds) v r = if v == 0 then [] else (v % r) ∷ digits rounds (v / r) r

unfoldable pub number : ℕ → List ℕ → ℕ
number r [] = 0
number r (d ∷ ds) = number r ds * r + d

pub number-digits : (rounds v r : ℕ) → v ≤ rounds → 2 ≤ r → number r (digits rounds v r) ≡ v
unfolding number digits
number-digits zero v r h p = omega arith
number-digits (suc rounds) v r h p = elim (Bool-cases (v == 0)) [
  | inl z ↦ rw z (ground arith)
  | inr nz ↦
      let fewer : v / r ≤ rounds = grind arith in
      rw (nz, number-digits rounds (v / r) r fewer p) (omega (arith, div-add-mod v r))
]

pub digits-lt :
    (rounds v r i : ℕ) → 2 ≤ r → i < length (digits rounds v r) → get_or (digits rounds v r) i 0 < r
unfolding digits
digits-lt zero v r i p h = absurd (omega arith)
digits-lt (suc rounds) v r zero p h = ground arith
digits-lt (suc rounds) v r (suc i) p h = ground (arith, digits-lt rounds (v / r) r i p)

pub length-digits : (rounds v r j : ℕ) → 2 ≤ r → v < 2 ^ j → length (digits rounds v r) ≤ j
unfolding digits
length-digits zero v r j p h = omega arith
length-digits (suc rounds) v r zero p h = ground arith
length-digits (suc rounds) v r (suc j) p h =
    let half : v / r < 2 ^ j = grind (arith, pow-suc 2 j) in
    ground (arith, length-digits rounds (v / r) r j p half)

pub length-digits-le : (rounds v r : ℕ) → length (digits rounds v r) ≤ rounds
unfolding digits
length-digits-le zero v r = omega arith
length-digits-le (suc rounds) v r = ground (arith, length-digits-le rounds (v / r) r)

pub digits-pos : (rounds v r : ℕ) → 1 ≤ length (digits (suc rounds) (suc v) r)
unfolding digits
digits-pos rounds v r = ground arith

-- Four bits to a digit in hexadecimal.
pub length-digits_hex : (rounds v j : ℕ) → v < 16 ^ j → length (digits rounds v 16) ≤ j
unfolding digits
length-digits_hex zero v j h = omega arith
length-digits_hex (suc rounds) v zero h = ground arith
length-digits_hex (suc rounds) v (suc j) h =
    let less : v / 16 < 16 ^ j = omega (arith, pow-suc 16 j) in
    ground (arith, length-digits_hex rounds (v / 16) j less)
