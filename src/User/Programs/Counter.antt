-- ===== src/User/Programs/Counter.antt =====
-- counter.c on the kernel's own calls, with ece391_itoa for the numbers.
use Prim.Native.String.{String}
use ece391_os.Common.{ℕ, zero, suc, ◌+◌, List, [], ◌∷◌, ◌++◌}
use ece391_os.Print.Digits.{number_text}
use ece391_os.User.Calls.{Calls}

-- The numbers behind `i`, each on a line.
abbrev pub numbers : ℕ → ℕ → List ℕ
numbers zero i = []
numbers (suc rounds) i = number_text 10 (i + 1) ++ (10 ∷ numbers rounds (i + 1))

abbrev pub question : String
question = "Enter the Test Number: (0): 100, (1): 10000, (2): 100000\n"
