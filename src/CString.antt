-- ===== src/CString.antt =====
-- The string functions of student-distrib/lib.c (strlen, strncmp, strcpy, strncpy, strrev, itoa)
-- over byte memory. A string is the address of bytes that end in a NUL.
-- A loop that looks for a NUL takes fuel, and is `none` when it runs out.
pub mod Length
pub mod Compare
pub mod Copy
pub mod Reverse
pub mod Digits
pub mod Number
use Prim.Native.Char.{code}
use Prim.Native.String
use Prim.Native.String.{String}
use ece391_os.Common.{
  ℕ, zero, suc, ◌+◌, ◌-◌, ◌*◌, ◌/◌, ◌%◌, Bool, leb, ltb, ◌==◌, ◌||◌, not, if◌then◌else◌, Option,
  none, some, List, [], ◌∷◌, get_or, ℤ, pos, sub_ℕ,
}
use ece391_os.Memory.{Mem, upd}

-- The codes of an ASCII literal.
abbrev pub codes : String → List ℕ
codes String.[] = []
codes (String.◌∷◌ c s) = code c ∷ codes s

unfoldable pub strlen_from : ℕ → Mem → ℕ → ℕ → Option ℕ
strlen_from zero m s len = none
strlen_from (suc fuel) m s len =
    let rest = strlen_from fuel m s (len + 1) in if m (s + len) == 0 then some len else rest

unfoldable pub strlen : ℕ → Mem → ℕ → Option ℕ
unfolding strlen_from
strlen fuel m s = strlen_from fuel m s 0

-- The difference of two bytes read through the signed `int8_t`.
abbrev pub sub_int8 : ℕ → ℕ → ℤ
sub_int8 a b = sub_ℕ (a + (if ltb b 128 then 0 else 256)) (b + (if ltb a 128 then 0 else 256))

strncmp_from : ℕ → Mem → ℕ → ℕ → ℕ → ℤ
strncmp_from zero m s1 s2 i = pos 0
strncmp_from (suc n) m s1 s2 i =
    let rest = strncmp_from n m s1 s2 (i + 1) in
    if not (m (s1 + i) == m (s2 + i)) || m (s1 + i) == 0
    then sub_int8 (m (s1 + i)) (m (s2 + i))
    else rest

unfoldable pub strncmp : Mem → ℕ → ℕ → ℕ → ℤ
unfolding strncmp_from
strncmp m s1 s2 n = strncmp_from n m s1 s2 0

strcpy_from : ℕ → Mem → ℕ → ℕ → ℕ → Option Mem
unfolding upd
strcpy_from zero m dest src i = none
strcpy_from (suc fuel) m dest src i =
    let rest = strcpy_from fuel (upd m (dest + i) (m (src + i))) dest src (i + 1) in
    if m (src + i) == 0 then some (upd m (dest + i) 0) else rest

unfoldable pub strcpy : ℕ → Mem → ℕ → ℕ → Option Mem
unfolding strcpy_from
strcpy fuel m dest src = strcpy_from fuel m dest src 0

-- The second loop of strncpy, with the rounds that are left.
strncpy_pad : ℕ → Mem → ℕ → ℕ → Mem
unfolding upd
strncpy_pad zero m dest i = m
strncpy_pad (suc r) m dest i = strncpy_pad r (upd m (dest + i) 0) dest (i + 1)

strncpy_from : ℕ → Mem → ℕ → ℕ → ℕ → Mem
unfolding upd strncpy_pad
strncpy_from zero m dest src i = m
strncpy_from (suc r) m dest src i =
    let rest = strncpy_from r (upd m (dest + i) (m (src + i))) dest src (i + 1) in
    if m (src + i) == 0 then strncpy_pad (suc r) m dest i else rest

unfoldable pub strncpy : Mem → ℕ → ℕ → ℕ → Mem
unfolding strncpy_from
strncpy m dest src n = strncpy_from n m dest src 0

-- The swapping loop. Its rounds are at most `end - beg`.
unfoldable pub strrev_loop : ℕ → Mem → ℕ → ℕ → ℕ → Mem
unfolding upd
strrev_loop zero m s beg end = m
strrev_loop (suc rounds) m s beg end =
    let m' = upd (upd m (s + end) (m (s + beg))) (s + beg) (m (s + end)) in
    let rest = strrev_loop rounds m' s (beg + 1) (end - 1) in if ltb beg end then rest else m

-- `end` starts at strlen(s) - 1: at -1 and at 0 alike the loop does not run.
unfoldable pub strrev_length : Option ℕ → Mem → ℕ → Option Mem
unfolding strrev_loop
strrev_length none m s = none
strrev_length (some len) m s = some (strrev_loop len m s 0 (len - 1))

unfoldable pub strrev : ℕ → Mem → ℕ → Option Mem
unfolding strrev_length strlen
strrev fuel m s = strrev_length (strlen fuel m s) m s

abbrev pub digit_chars : List ℕ
digit_chars = codes "0123456789ABCDEFGHIJKLMNOPQRSTUVWXYZ"

-- The table `lookup`, which ends in a NUL.
unfoldable pub digit_char : ℕ → ℕ
digit_char i = get_or digit_chars i 0

-- The digits, lowest first, and the address behind the last. For a radix from 2 on, `newval` is a
-- bound on its rounds.
unfoldable pub itoa_loop : ℕ → Mem → ℕ → ℕ → ℕ → Mem × ℕ
unfolding upd
itoa_loop zero m newbuf newval radix = (m, newbuf)
itoa_loop (suc rounds) m newbuf newval radix =
    let m' = upd m newbuf (digit_char (newval % radix)) in
    let rest = itoa_loop rounds m' (newbuf + 1) (newval / radix) radix in
    if newval == 0 then (m, newbuf) else rest

-- `none`: with the radix 1 the loop does not end, and 0 is a division by zero.
unfoldable pub itoa : Mem → ℕ → ℕ → ℕ → Option Mem
unfolding itoa_loop strrev upd
itoa m value buf radix =
    let (m', newbuf) = itoa_loop value m buf value radix in
    if value == 0
    then some (upd (upd m buf b'0') (buf + 1) 0)
    else if ltb radix 2
    then none
    else strrev (value + 1) (upd m' newbuf 0) buf
