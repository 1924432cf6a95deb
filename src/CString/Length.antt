-- ===== src/CString/Length.antt =====
-- The text of a string, and strlen.
use ece391_os.Common.{
  ℕ, zero, suc, ◌+◌, ◌≤◌, ◌<◌, ◌≡◌, ◌≢◌, arith, ◌==◌, if◌then◌else◌, some, List, [], ◌∷◌, length,
  get_or,
}
use ece391_os.Memory.{Mem}
use ece391_os.CString.{strlen_from, strlen}

-- The bytes from `s` on before the first NUL, and at most `n` of them.
unfoldable pub text : ℕ → Mem → ℕ → List ℕ
text zero m s = []
text (suc n) m s = if m s == 0 then [] else m s ∷ text n m (s + 1)

-- A NUL at `s + k` is the first from `s` on.
pub record EndsAt (m : Mem) (s k : ℕ) : Type 0 where
  pub nul : m (s + k) ≡ 0
  pub before : (i : ℕ) → i < k → m (s + i) ≢ 0

strlen_from_lem :
    (fuel : ℕ) (m : Mem) (s len k : ℕ)
    → EndsAt m s k
    → len ≤ k
    → k < len + fuel
    → strlen_from fuel m s len ≡ some k
unfolding strlen_from
strlen_from_lem zero m s len k e p q = absurd (omega arith)
strlen_from_lem (suc fuel) m s len k e p q =
    ground (arith, e.nul, e.before len, strlen_from_lem fuel m s (len + 1) k e)

-- With more fuel than the string is long, strlen returns the distance to its first NUL.
pub strlen_lem : (fuel : ℕ) (m : Mem) (s k : ℕ) → EndsAt m s k → k < fuel → strlen fuel m s ≡ some k
unfolding strlen
strlen_lem fuel m s k e h = strlen_from_lem fuel m s 0 k e (omega arith) (omega arith)

pub length-text : (n : ℕ) (m : Mem) (s : ℕ) → length (text n m s) ≤ n
unfolding text
length-text zero m s = omega arith
length-text (suc n) m s = ground (arith, length-text n m (s + 1))

-- The text ends at a NUL or at its bound.
pub text_end : (n : ℕ) (m : Mem) (s : ℕ) → length (text n m s) < n → m (s + length (text n m s)) ≡ 0
unfolding text
text_end zero m s h = absurd (omega arith)
text_end (suc n) m s h = ground (arith, text_end n m (s + 1))

-- It holds no NUL, and its bytes are those of the memory.
pub text_bytes :
    (n : ℕ) (m : Mem) (s i : ℕ)
    → i < length (text n m s)
    → (m (s + i) ≢ 0) × (get_or (text n m s) i 0 ≡ m (s + i))
unfolding text
text_bytes zero m s i h = absurd (omega arith)
text_bytes (suc n) m s zero h = ground arith
text_bytes (suc n) m s (suc i) h = ground (arith, text_bytes n m (s + 1) i)
