-- ===== src/User/Console.antt =====
-- Strings and byte arrays of a user program, and ece391_fdputs as a call of write.
use ece391_os.Common.{
  ℕ, zero, suc, ◌+◌, ◌<◌, ◌≤◌, ◌≡◌, ◌≢◌, refl, ◌∙◌, ap, ap₂, arith, false, ◌==◌, some, List, [],
  ◌∷◌, length, ℤ, pos,
}
use ece391_os.Memory.{Mem, upd}
use ece391_os.Print.Text.{IsText}
use ece391_os.User.{ece391_strlen_from, ece391_strlen, ece391_fdputs}
use ece391_os.User.Calls.{Machine, Calls, fdputs, bytes}

ece391_strlen_from-IsText :
    (fuel : ℕ) (m : Mem) (s len : ℕ) (xs : List ℕ)
    → IsText m s xs
    → length xs < fuel
    → ece391_strlen_from fuel m s len ≡ some (len + length xs)
unfolding ece391_strlen_from
ece391_strlen_from-IsText zero m s len xs t h = absurd (omega arith)
ece391_strlen_from-IsText (suc fuel) m s len [] t h = ground (arith, t)
ece391_strlen_from-IsText (suc fuel) m s len (x ∷ xs) (p, q, r) h =
    let more : (m s == 0) ≡ false = ground (arith, p, q) in
    rw more (
      ece391_strlen_from-IsText fuel m (s + 1) (len + 1) xs r (omega arith) ∙ ap some (omega arith))

-- ece391_strlen gives the length of a text, with a bound above it.
pub ece391_strlen-IsText :
    (fuel : ℕ) (m : Mem) (s : ℕ) (xs : List ℕ)
    → IsText m s xs
    → length xs < fuel
    → ece391_strlen fuel m s ≡ some (length xs)
unfolding ece391_strlen
ece391_strlen-IsText fuel m s xs t h =
    ece391_strlen_from-IsText fuel m s 0 xs t h ∙ ap some (omega arith)

-- ece391_fdputs is a write of the text of a string.
pub fdputs-write :
    {W : Type 0} (c : Calls W) (u u' : Machine W) (s : ℕ) (xs : List ℕ) (r : ℤ)
    → IsText u.memory s xs
    → length xs < c.chars
    → c.ece391_write (pos 1) s (pos (length xs)) u ≡ some (r, u')
    → fdputs c (pos 1) s u ≡ some (tt, u')
unfolding fdputs ece391_fdputs
fdputs-write c u u' s xs r t h e = rw (ece391_strlen-IsText c.chars u.memory s xs t h, e) refl

-- A byte that is stored behind `k` bytes changes none of them.
pub bytes-upd_behind : (m : Mem) (a k b v : ℕ) → a + k ≤ b → bytes (upd m b v) a k ≡ bytes m a k
unfolding upd
bytes-upd_behind m a zero b v h = refl
bytes-upd_behind m a (suc k) b v h =
    ap₂ (λ x xs. x ∷ xs) (ground arith) (bytes-upd_behind m (a + 1) k b v (omega arith))

abbrev pub NoNul : List ℕ → Type 0
NoNul [] = Unit {0}
NoNul (x ∷ xs) = (x ≢ 0) × NoNul xs

-- Bytes without a NUL are a text when a NUL stands behind them.
pub bytes_are-IsText :
    (m : Mem) (a : ℕ) (xs : List ℕ)
    → bytes m a (length xs) ≡ xs
    → NoNul xs
    → m (a + length xs) ≡ 0
    → IsText m a xs
bytes_are-IsText m a [] e n z = ap m (omega arith) ∙ z
bytes_are-IsText m a (x ∷ xs) e (n, ns) z =
    let (first, others) : (m a ≡ x) × (bytes m (a + 1) (length xs) ≡ xs) = (cc e, cc e) in
    (first, n, bytes_are-IsText m (a + 1) xs others ns (ap m (omega arith) ∙ z))
