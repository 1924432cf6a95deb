-- ===== src/User/Calls.antt =====
-- A user program's machine, and the system calls that it makes: the stubs of
-- syscalls/ece391syscall.S as an interface. A program is a sequence of steps on the machine.
use Prim.Native.String.{String}
use mathlib.Core.Option
use ece391_os.Common.{
  ℕ, zero, suc, ◌+◌, ◌-◌, Bool, false, ◌==◌, Option, none, some, List, [], ◌∷◌, ℤ, pos, negsuc,
}
use ece391_os.Memory.{Mem, upd}
use ece391_os.User.{ece391_strlen, ece391_strcpy, ece391_strcmp, ece391_itoa, ece391_fdputs}

-- The program's memory, and all that is behind the system calls.
pub record Machine (W : Type 0) : Type 0 where
  pub memory : Mem
  pub world : W

-- `none`: the program does not come back from a call, or a bound of characters is too small.
abbrev pub Run : Type 0 → Type 0 → Type 0
Run W A = Machine W → Option (A × Machine W)

-- The rest of a program behind a step.
abbrev pub after :
    {W A B : Type 0} → (A → Run W B) → Option (A × Machine W) → Option (B × Machine W)
after next none = none
after next (some (a, u)) = next a u

infixl 5 ◌>>=◌ ◌>>◌
abbrev pub ◌>>=◌ : {W A B : Type 0} → Run W A → (A → Run W B) → Run W B
◌>>=◌ run next u = after next (run u)

abbrev pub ◌>>◌ : {W A B : Type 0} → Run W A → Run W B → Run W B
run >> next = run >>= λ _. next

abbrev pub give : {W A : Type 0} → A → Run W A
give a u = some (a, u)

-- *a, and *a = v for a byte.
abbrev pub load : {W : Type 0} → ℕ → Run W ℕ
load a u = some (u.memory a, u)

unfoldable pub store : {W : Type 0} → ℕ → ℕ → Run W (Unit {0})
unfolding upd
store a v u = some (tt, record u { memory = upd u.memory a v })

-- The system calls, where the linker has put each string literal, and a bound of the characters of a
-- string, its NUL counted.
pub record Calls (W : Type 0) : Type 0 where
  pub ece391_execute : ℕ → Run W ℤ
  pub ece391_read : ℤ → ℕ → ℕ → Run W ℤ
  pub ece391_write : ℤ → ℕ → ℤ → Run W ℤ
  pub ece391_open : ℕ → Run W ℤ
  pub ece391_close : ℤ → Run W ℤ
  pub ece391_getargs : ℕ → ℕ → Run W ℤ
  pub ece391_vidmap : ℕ → Run W ℤ
  pub literal : String → ℕ
  pub chars : ℕ

module _ {W : Type 0} (c : Calls W) where
  -- ece391_fdputs on the machine.
  unfoldable pub fdputs : ℤ → ℕ → Run W (Unit {0})
  unfolding ece391_fdputs
  fdputs fd s u =
      Option.map (λ u'. (tt, u'))
        (ece391_fdputs (λ fd' a n. c.ece391_write fd' a (pos n)) c.chars u.memory fd s u)

  -- ece391_fdputs (1, text) for a literal.
  abbrev pub puts_literal : String → Run W (Unit {0})
  puts_literal text = fdputs (pos 1) (c.literal text)

  -- ece391_strcmp on the machine.
  unfoldable pub compare_strings : ℕ → ℕ → Run W ℤ
  unfolding ece391_strcmp
  compare_strings s1 s2 u = Option.map (λ r. (r, u)) (ece391_strcmp c.chars u.memory s1 s2)

  -- ece391_strlen on the machine.
  unfoldable pub string_length : ℕ → Run W ℕ
  unfolding ece391_strlen
  string_length s u = Option.map (λ n. (n, u)) (ece391_strlen c.chars u.memory s)

  -- ece391_strcpy on the machine.
  unfoldable pub copy_string : ℕ → ℕ → Run W (Unit {0})
  unfolding ece391_strcpy
  copy_string dst src u =
      Option.map (λ m. (tt, record u { memory = m })) (ece391_strcpy c.chars u.memory dst src)

-- ece391_itoa (value, buf, 10) on the machine.
unfoldable pub convert : {W : Type 0} → ℕ → ℕ → Run W (Unit {0})
unfolding ece391_itoa
convert value buf u =
    Option.map (λ m. (tt, record u { memory = m })) (ece391_itoa u.memory value buf 10)

-- The test of a result against -1.
abbrev pub failed : ℤ → Bool
failed (pos n) = false
failed (negsuc n) = n == 0

-- `k` bytes from `a` on.
abbrev pub bytes : Mem → ℕ → ℕ → List ℕ
bytes m a zero = []
bytes m a (suc k) = m a ∷ bytes m (a + 1) k

-- a + k, and k + 1, for an int32_t k.
abbrev pub at_offset : ℕ → ℤ → ℕ
at_offset a (pos k) = a + k
at_offset a (negsuc k) = a - (k + 1)

abbrev pub one_more : ℤ → ℤ
one_more (pos k) = pos (k + 1)
one_more (negsuc zero) = pos 0
one_more (negsuc (suc k)) = negsuc k

abbrev pub is_number : ℤ → ℕ → Bool
is_number (pos k) n = k == n
is_number (negsuc k) n = false

-- A count that a call returns.
abbrev pub pos_part : ℤ → ℕ
pos_part (pos k) = k
pos_part (negsuc k) = 0
