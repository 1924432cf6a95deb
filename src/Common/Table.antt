-- ===== src/Common/Table.antt =====
-- Statements about small numbers, checked by computing a table.
use Prim.Native.Nat.{ℕ, zero, suc, ◌<◌}
use mathlib.Core.Path.{◌≡◌}
use mathlib.Core.Bool.{Bool, true, false}
use native.Mathlib.Omega.{arith}
use ece391_os.Common.Tests.{if◌then◌else◌}

-- The table of `test` for the numbers below `rows`, the last row first.
unfoldable pub all_below : ℕ → (ℕ → Bool) → Bool
all_below zero test = true
all_below (suc rows) test = if test rows then all_below rows test else false

-- Its first row, and the others.
table_rows :
    (rows : ℕ) (test : ℕ → Bool)
    → all_below (suc rows) test ≡ true
    → (test rows ≡ true) × (all_below rows test ≡ true)
unfolding all_below
table_rows rows test h = ground arith

pub all_below_sound :
    (rows : ℕ) (test : ℕ → Bool) (i : ℕ) → all_below rows test ≡ true → i < rows → test i ≡ true
all_below_sound zero test i h l = absurd (omega arith)
all_below_sound (suc rows) test i h l =
    let (last, others) = table_rows rows test h in ground (arith, last, all_below_sound rows test i)
