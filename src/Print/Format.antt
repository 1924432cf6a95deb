-- ===== src/Print/Format.antt =====
-- What printf (lib.c) is to write: the format with its specifiers replaced.
use ece391_os.Common.{
  ℕ, ◌+◌, ◌-◌, ◌^◌, ◌%◌, ◌≤◌, ◌<◌, ◌≡◌, ◌≢◌, ◌⊎◌, refl, ◌==◌, ltb, leb, ◌&&◌, ◌||◌, if◌then◌else◌,
  Option, none, some, List, [], ◌∷◌, ◌++◌, length, ne→==, ◌>>=◌,
}
use ece391_os.Memory.{Mem}
use ece391_os.CString.Length.{text}
use ece391_os.Print.Numbers.{argument_text}

-- The string at `a`, of less than `chars` characters and apart from the buffer at `conv`.
unfoldable pub string_text : ℕ → ℕ → Mem → ℕ → Option (List ℕ)
unfolding text
string_text chars conv m a =
    let xs = text (chars - 1) m a in
    if m (a + length xs) == 0 && (ltb (a + length xs) conv || leb (conv + 64) a)
    then some xs
    else none

-- What a specifier writes, and the arguments that are left.
unfoldable pub spec_text : ℕ → ℕ → Mem → ℕ → ℕ → List ℕ → Option (List ℕ × List ℕ)
unfolding string_text argument_text
spec_text chars conv m c alternate [] =
    if c == b'%'
    then some (b'%' ∷ [], [])
    else if c == b'x' || c == b'u' || c == b'd' || c == b'c' || c == b's'
    then none
    else some ([], [])
spec_text chars conv m c alternate (v ∷ args) =
    if c == b'%'
    then some (b'%' ∷ [], v ∷ args)
    else if c == b'x' || c == b'u' || c == b'd'
    then some (argument_text c alternate v, args)
    else if c == b'c'
    then some ((v % 256) ∷ [], args)
    else if c == b's'
    then (do xs ← string_text chars conv m v; some (xs, args))
    else some ([], v ∷ args)

-- The output of the format `cs`. `mode` is `none` outside a specifier, and then the flag. `none` for
-- a format that ends in a specifier, or has too few arguments.
unfoldable pub render : ℕ → ℕ → Mem → Option ℕ → List ℕ → List ℕ → Option (List ℕ)
unfolding spec_text
render chars conv m none [] args = some []
render chars conv m (some alternate) [] args = none
render chars conv m none (c ∷ cs) args =
    let specifier = render chars conv m (some 0) cs args in
    let plain = (do out ← render chars conv m none cs args; some (c ∷ out)) in
    if c == b'%' then specifier else plain
render chars conv m (some alternate) (c ∷ cs) args =
    let flagged = render chars conv m (some 1) cs args in
    let written = do
      done ← spec_text chars conv m c alternate args
      out ← render chars conv m none cs done.1
      some (done.0 ++ out)
    in if c == b'#' then flagged else written

-- The arguments are 32-bit words.
abbrev pub AreWords : List ℕ → Type 0
AreWords [] = Unit {0}
AreWords (v ∷ args) = (v < 2 ^ 32) × AreWords args

-- The two memories agree outside the 64 bytes at `conv`.
abbrev pub Agree : Mem → Mem → ℕ → Type 0
Agree m m' conv = (b : ℕ) → (b < conv) ⊎ (conv + 64 ≤ b) → m' b ≡ m b

-- No character is a `%`.
abbrev pub IsPlain : List ℕ → Type 0
IsPlain [] = Unit {0}
IsPlain (c ∷ cs) = (c ≢ b'%') × IsPlain cs

-- Plain text is written as it is.
pub render-plain :
    (chars conv : ℕ) (m : Mem) (cs args : List ℕ)
    → IsPlain cs
    → render chars conv m none cs args ≡ some cs
unfolding render
render-plain chars conv m [] args p = refl
render-plain chars conv m (c ∷ cs) args (n, p) =
    rw (ne→== c b'%' n, render-plain chars conv m cs args p) refl
