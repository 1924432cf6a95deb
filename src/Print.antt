-- ===== src/Print.antt =====
-- student-distrib/lib.c: printf and puts, and printf_terminal_active and puts_terminal_active, which
-- are the same code with another putc: here putc is an argument.
pub mod Digits
pub mod Text
pub mod Numbers
pub mod Format
pub mod Convert
pub mod Run
pub mod Plain
pub mod Keep
use ece391_os.Common.{
  ℕ, zero, suc, ◌+◌, ◌-◌, ◌^◌, ◌%◌, leb, ltb, ◌==◌, ◌||◌, ◌&&◌, Bool, true, false, if◌then◌else◌,
  Option, none, some, List, [], ◌∷◌, ◌>>=◌,
}
use ece391_os.Memory.{Mem, upd}
use ece391_os.CString.{itoa, strlen}

-- Writes one character; `none` is its failure.
abbrev pub Putc {ℓ} : Type ℓ → Type ℓ
Putc S = ℕ → S → Option S

-- The loop of puts over the string at `str`; `chars` bounds the characters that are looked at.
unfoldable pub puts_from {ℓ} : {S : Type ℓ} → Putc S → ℕ → Mem → ℕ → ℕ → S → Option (ℕ × S)
puts_from putc zero m str index s = none
puts_from putc (suc chars) m str index s = elim (m (str + index) == 0) [
  | true ↦ some (index, s)
  | false ↦ do s' ← putc (m (str + index)) s; puts_from putc chars m str (index + 1) s'
]

-- `while(i < 8) { conv_buf[i] = '0'; i++; }`, with the rounds that are left.
unfoldable pub pad_from : ℕ → Mem → ℕ → ℕ → Mem
unfolding upd
pad_from zero m conv_buf i = m
pad_from (suc r) m conv_buf i = pad_from r (upd m (conv_buf + i) b'0') conv_buf (i + 1)

-- The number `v` put into conv_buf for %x, %u and %d, and where its string starts.
unfoldable pub number_string : ℕ → ℕ → ℕ → ℕ → Mem → Option (Mem × ℕ)
unfolding pad_from upd
number_string conv_buf c alternate v m =
    if c == b'x'
    then (if alternate == 0 then (do m' ← itoa m v conv_buf 16; some (m', conv_buf)) else (do
      m' ← itoa m v (conv_buf + 8) 16
      len ← strlen 33 m' (conv_buf + 8)
      some (pad_from (8 - len) m' conv_buf len, conv_buf + len)))
    else if c == b'd' && leb (2 ^ 31) v
    then (do m' ← itoa (upd m conv_buf b'-') (2 ^ 32 - v) (conv_buf + 1) 10; some (m', conv_buf))
    else (do m' ← itoa m v conv_buf 10; some (m', conv_buf))

-- The conversion specifier `c`: what is left of the arguments, the memory, and the state after the
-- output. An argument is a word; `none` also if there is none left. Strings have less than `chars`
-- characters.
unfoldable pub conversion {ℓ} :
    {S : Type ℓ} → Putc S → ℕ → ℕ → ℕ → ℕ → List ℕ → Mem → S → Option (List ℕ × Mem × S)
unfolding puts_from number_string
conversion putc chars conv_buf c alternate [] m s =
    if c == b'%'
    then (do s' ← putc b'%' s; some ([], m, s'))
    else if c == b'x' || c == b'u' || c == b'd' || c == b'c' || c == b's'
    then none
    else some ([], m, s)
conversion putc chars conv_buf c alternate (v ∷ args) m s =
    if c == b'%'
    then (do s' ← putc b'%' s; some (v ∷ args, m, s'))
    else if c == b'x' || c == b'u' || c == b'd'
    then (do
      number ← number_string conv_buf c alternate v m
      out ← puts_from putc chars number.0 number.1 0 s
      some (args, number.0, out.1))
    else if c == b'c'
    then (do s' ← putc (v % 256) s; some (args, m, s'))
    else if c == b's'
    then (do out ← puts_from putc chars m v 0 s; some (args, m, out.1))
    else some (v ∷ args, m, s)

-- `format_char_switch` and its goto: past the `#`, with `alternate`.
unfoldable pub skip_flags : ℕ → Mem → ℕ → ℕ → Option (ℕ × ℕ)
skip_flags zero m buf alternate = none
skip_flags (suc fuel) m buf alternate =
    let rest = skip_flags fuel m (buf + 1) 1 in
    if m buf == b'#' then rest else some (buf, alternate)

-- The loop of printf at `buf`. `conv_buf` is the address of the local array. The result is that of
-- printf, the memory and the state.
unfoldable pub printf_from {ℓ} :
    {S : Type ℓ} → Putc S → ℕ → ℕ → ℕ → ℕ → ℕ → List ℕ → Mem → S → Option (ℕ × Mem × S)
printf_from putc zero chars conv_buf format buf args m s = none
printf_from putc (suc fuel) chars conv_buf format buf args m s =
    let converted = do
      spec ← skip_flags (suc fuel) m (buf + 1) 0
      done ← conversion putc chars conv_buf (m (spec.0)) spec.1 args m s
      printf_from putc fuel chars conv_buf format (spec.0 + 1) done.0 done.1 done.2
    in let plain = do
      s' ← putc (m buf) s
      printf_from putc fuel chars conv_buf format (buf + 1) args m s'
      in if m buf == 0
        then some (buf - format, m, s)
        else if m buf == b'%'
        then converted
        else plain

-- printf(format, args). `fuel` bounds the characters of the format.
unfoldable pub printf {ℓ} :
    {S : Type ℓ} → Putc S → ℕ → ℕ → ℕ → ℕ → List ℕ → Mem → S → Option (ℕ × Mem × S)
unfolding printf_from
printf putc fuel chars conv_buf format args m s =
    printf_from putc fuel chars conv_buf format format args m s
