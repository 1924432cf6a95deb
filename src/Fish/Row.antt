-- ===== src/Fish/Row.antt =====
-- A line of the two frames of fish.c, on files that are read character by character.
use ece391_os.Common.{ℕ, ◌≤◌, ◌≡◌, arith, Bool, Option, some, List, [], ◌∷◌, ◌++◌, length, ℤ}
use ece391_os.User.Calls.{Machine, Run, Calls}
use ece391_os.Fish.{Blink}
use ece391_os.Fish.Next.{others}

length-others : (xs : List ℕ) → length (others xs) ≤ length xs
length-others [] = omega arith
length-others (x ∷ xs) = omega arith

-- A call of mp1_ioctl that asks for a blink comes back, with 0 or with a refusal; whatever it writes
-- to its own list and to the screen, the two characters and the files are as they were. `asked` are
-- the blinks that were asked for.
pub record Asks {W : Type 0} (add : Blink → Run W ℤ) (c0 c1 : ℕ) (left0 left1 : W → List ℕ)
    (asked : W → List Blink) : Type 0 where
  pub asks :
      (b : Blink) (u : Machine W)
      → (r : ℤ) × (u' : Machine W) × (add b u ≡ some (r, u'))
        × (u'.memory c0 ≡ u.memory c0)
        × (u'.memory c1 ≡ u.memory c1)
        × (left0 u'.world ≡ left0 u.world)
        × (left1 u'.world ≡ left1 u.world)
        × (asked u'.world ≡ asked u.world ++ (b ∷ []))

-- Where a line ends: both files stand behind it, and its blinks are asked for.
abbrev pub HasRow :
    {W : Type 0}
    → (W → List ℕ)
    → (W → List ℕ)
    → (W → List Blink)
    → Machine W
    → Bool × Bool
    → List ℕ × List ℕ
    → List Blink
    → Option ((Bool × Bool) × Machine W)
    → Type 0
HasRow {W} left0 left1 asked u eofs behind bs x =
    (u' : Machine W) × (x ≡ some (eofs, u'))
    × (left0 u'.world ≡ behind.0)
    × (left1 u'.world ≡ behind.1)
    × (asked u'.world ≡ asked u.world ++ bs)
