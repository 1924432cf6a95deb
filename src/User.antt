-- ===== src/User.antt =====
-- The library of the user programs, syscalls/ece391support.c: strings, and output by the system call
-- write, which is an argument.
pub mod Compare
pub mod Numbers
pub mod Calls
pub mod Console
pub mod Errors
pub mod Grep
pub mod Pingpong
pub mod Kernel
pub mod Output
pub mod Programs
use ece391_os.Common.{
  ℕ, zero, suc, ◌+◌, ◌-◌, ltb, ◌==◌, ◌||◌, if◌then◌else◌, Option, none, some, ℤ, pos, sub_ℕ, ◌>>=◌,
}
use ece391_os.CString.{strrev_loop, itoa_loop}
use ece391_os.Memory.{Mem, upd}

-- The loop of ece391_strlen; `none`: no NUL in the bytes that are looked at.
unfoldable pub ece391_strlen_from : ℕ → Mem → ℕ → ℕ → Option ℕ
ece391_strlen_from zero m s len = none
ece391_strlen_from (suc fuel) m s len =
    let rest = ece391_strlen_from fuel m (s + 1) (len + 1) in if m s == 0 then some len else rest

unfoldable pub ece391_strlen : ℕ → Mem → ℕ → Option ℕ
unfolding ece391_strlen_from
ece391_strlen fuel m s = ece391_strlen_from fuel m s 0

-- The copy ends behind the NUL, which is copied too.
unfoldable pub ece391_strcpy : ℕ → Mem → ℕ → ℕ → Option Mem
unfolding upd
ece391_strcpy zero m dst src = none
ece391_strcpy (suc fuel) m dst src =
    let rest = ece391_strcpy fuel (upd m dst (m src)) (dst + 1) (src + 1) in
    if m src == 0 then some (upd m dst (m src)) else rest

-- write(fd, s, length), of which the result is dropped.
unfoldable pub ece391_fdputs {ℓ} :
    {S : Type ℓ} → (ℤ → ℕ → ℕ → S → Option (ℤ × S)) → ℕ → Mem → ℤ → ℕ → S → Option S
unfolding ece391_strlen
ece391_fdputs write fuel m fd s state = do
  length ← ece391_strlen fuel m s
  out ← write fd s length state
  some out.1

unfoldable pub ece391_strcmp : ℕ → Mem → ℕ → ℕ → Option ℤ
ece391_strcmp zero m s1 s2 = none
ece391_strcmp (suc fuel) m s1 s2 =
    let rest = ece391_strcmp fuel m (s1 + 1) (s2 + 1) in
    if m s1 == m s2 then (if m s1 == 0 then some (pos 0) else rest) else some (sub_ℕ (m s1) (m s2))

-- `n` is counted down before it is tested for 0.
unfoldable pub ece391_strncmp : Mem → ℕ → ℕ → ℕ → ℤ
ece391_strncmp m s1 s2 zero = pos 0
ece391_strncmp m s1 s2 (suc n) =
    let rest = ece391_strncmp m (s1 + 1) (s2 + 1) n in
    if m s1 == m s2 then (if m s1 == 0 || n == 0 then pos 0 else rest) else sub_ℕ (m s1) (m s2)

-- Its loop is that of strrev in lib.c. `end` starts at ece391_strlen(s) - 1.
unfoldable pub ece391_strrev : ℕ → Mem → ℕ → Option Mem
unfolding ece391_strlen strrev_loop
ece391_strrev fuel m s = do
  len ← ece391_strlen fuel m s
  some (if ltb 1 len then strrev_loop len m s 0 (len - 1) else m)

-- Its loop is that of itoa in lib.c.
unfoldable pub ece391_itoa : Mem → ℕ → ℕ → ℕ → Option Mem
unfolding itoa_loop upd
ece391_itoa m value buf radix =
    let (m', newbuf) = itoa_loop value m buf value radix in
    if value == 0
    then some (upd (upd m buf b'0') (buf + 1) 0)
    else if ltb radix 2
    then none
    else ece391_strrev (value + 1) (upd m' newbuf 0) buf
