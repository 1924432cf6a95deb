-- ===== src/Fish/Next.antt =====
-- The next character of a line in fish.c, and the blinks of a line.
use ece391_os.Common.{
  ℕ, ◌+◌, ◌≡◌, ◌≢◌, ◌⊎◌, inl, inr, refl, arith, Bool, ◌||◌, eq→==, ne→==, Option, some, List, [],
  ◌∷◌, ◌++◌, if◌then◌else◌, ℤ, pos,
}
use ece391_os.Memory.{Mem, upd}
use ece391_os.User.Calls.{Machine, Calls}
use ece391_os.Fish.{Blink, visible, blink_at, next_char}

abbrev pub NoNewline : List ℕ → Type 0
NoNewline [] = Unit {0}
NoNewline (x ∷ xs) = (x ≢ 10) × NoNewline xs

-- The character that the loop sees: a newline behind the end of a line.
abbrev pub first : List ℕ → ℕ
first [] = 10
first (x ∷ xs) = x

abbrev pub others : List ℕ → List ℕ
others [] = []
others (x ∷ xs) = xs

-- The blinks of one place.
abbrev pub blinks_at : ℕ → ℕ → ℕ → ℕ → List Blink
blinks_at row col x y = if visible x || visible y then blink_at row col x y ∷ [] else []

-- The blinks of a line from a column on: one for each place where a frame has something to show.
abbrev pub blinks : ℕ → ℕ → List ℕ → List ℕ → List Blink
blinks row col [] [] = []
blinks row col [] (y ∷ ys) = blinks_at row col 10 y ++ blinks row (col + 1) [] ys
blinks row col (x ∷ xs) [] = blinks_at row col x 10 ++ blinks row (col + 1) xs []
blinks row col (x ∷ xs) (y ∷ ys) = blinks_at row col x y ++ blinks row (col + 1) xs ys

-- A read of one character of a file: `left` is what is not yet read, and `rest` what else is kept.
pub record Reads {W A : Type 0} (c : Calls W) (at : ℕ) (fd : ℤ) (left : W → List ℕ) (rest : W → A)
    : Type 0 where
  pub next :
      (u : Machine W) (x : ℕ) (xs : List ℕ)
      → left u.world ≡ x ∷ xs
      → (w : W) × (c.ece391_read fd at 1 u
          ≡ some (pos 1, record { memory = upd u.memory at x; world = w }))
        × (left w ≡ xs)
        × (rest w ≡ rest u.world)

-- What is left of a file's line: its characters `xs`, and the newline unless it is seen already.
abbrev pub Pending : Mem → ℕ → List ℕ → List ℕ → List ℕ → Type 0
Pending m at left xs behind =
    ((m at ≢ 10) × (left ≡ xs ++ (10 ∷ behind))) ⊎ ((m at ≡ 10) × (xs ≡ []) × (left ≡ behind))

-- The step of a file.
abbrev pub Stepped :
    {W A : Type 0}
    → ℕ
    → (W → List ℕ)
    → (W → A)
    → Machine W
    → Bool
    → List ℕ
    → List ℕ
    → Option (Bool × Machine W)
    → Type 0
Stepped {W} at left rest u eof xs behind x =
    (u' : Machine W) × (x ≡ some (eof, u'))
    × (u'.memory at ≡ first xs)
    × ((b : ℕ) → b ≢ at → u'.memory b ≡ u.memory b)
    × Pending u'.memory at (left u'.world) (others xs) behind
    × (rest u'.world ≡ rest u.world)

pub next_char-Stepped :
    {W A : Type 0} (c : Calls W) (at : ℕ) (fd : ℤ) (left : W → List ℕ) (rest : W → A)
    → Reads c at fd left rest
    → (u : Machine W) (eof : Bool) (xs behind : List ℕ) → NoNewline xs
    → Pending u.memory at (left u.world) xs behind
    → Stepped at left rest u eof xs behind (next_char c at fd eof u)
unfolding next_char upd
next_char-Stepped c at fd left rest reads u eof [] behind n (inl (open_line, e)) =
    let (w, r, l, same) = reads.next u 10 behind e in
    (
      record { memory = upd u.memory at 10; world = w },
      rw (ne→== (u.memory at) 10 open_line, r) refl,
      ground arith,
      λ b d. ground arith,
      inr (ground arith, refl, l),
      same,
    )
next_char-Stepped c at fd left rest reads u eof (x ∷ xs) behind n (inl (open_line, e)) =
    let (w, r, l, same) = reads.next u x (xs ++ (10 ∷ behind)) e in
    (
      record { memory = upd u.memory at x; world = w },
      rw (ne→== (u.memory at) 10 open_line, r) refl,
      ground arith,
      λ b d. ground arith,
      inl (ground (arith, n.0), l),
      same,
    )
next_char-Stepped c at fd left rest reads u eof [] behind n (inr (seen, e, l)) =
    (u, rw (eq→== (u.memory at) 10 seen) refl, seen, λ b d. refl, inr (seen, refl, l), refl)
next_char-Stepped c at fd left rest reads u eof (x ∷ xs) behind n (inr (seen, e, l)) = absurd (cc e)
