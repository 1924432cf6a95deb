-- ===== src/CString/Reverse.antt =====
-- strrev of lib.c reverses a string in place.
use ece391_os.Common.{
  ℕ, zero, suc, ◌+◌, ◌-◌, ◌≤◌, ◌<◌, ◌≡◌, arith, leb, ltb, ◌&&◌, if◌then◌else◌, some,
}
use ece391_os.Memory.{Mem, upd}
use ece391_os.CString.{strrev_loop, strrev_length, strrev}
use ece391_os.CString.Length.{EndsAt, strlen_lem}

-- `m` with the bytes from `lo` to `hi`, both included, in reverse.
abbrev mirrored : Mem → ℕ → ℕ → Mem
mirrored m lo hi b = if leb lo b && leb b hi then m (lo + (hi - b)) else m b

strrev_loop_lem :
    (rounds : ℕ) (m : Mem) (s beg end b : ℕ)
    → end ≤ beg + rounds
    → strrev_loop rounds m s beg end b ≡ mirrored m (s + beg) (s + end) b
unfolding strrev_loop upd
strrev_loop_lem zero m s beg end b h = ground arith
strrev_loop_lem (suc r) m s beg end b h = ground (
  arith,
  strrev_loop_lem r (upd (upd m (s + end) (m (s + beg))) (s + beg) (m (s + end))) s (beg + 1)
      (end - 1) b,
)

-- With more fuel than the string is long, strrev puts its `k` characters in reverse order, and
-- changes nothing else.
pub strrev_lem :
    (fuel : ℕ) (m : Mem) (s k : ℕ)
    → EndsAt m s k
    → k < fuel
    → (m' : Mem) × (strrev fuel m s ≡ some m')
      × ((b : ℕ) → m' b ≡ (if leb s b && ltb b (s + k) then m (s + (s + k - 1 - b)) else m b))
unfolding strrev strrev_length
strrev_lem fuel m s k e h = (
  strrev_loop k m s 0 (k - 1),
  rw (strlen_lem fuel m s k e h),
  λ b. ground (arith, strrev_loop_lem k m s 0 (k - 1) b),
)
