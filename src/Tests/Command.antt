-- ===== src/Tests/Command.antt =====
-- The command line "ls a".
use ece391_os.Common.{
  ℕ, zero, suc, ◌+◌, ◌-◌, ◌<◌, ◌≡◌, refl, inr, arith, some, [], ◌∷◌, get_or, false,
}
use ece391_os.Memory.{Mem}
use ece391_os.Process.Command.{parse_command, ends_word}
use ece391_os.Process.Parse.{IsWord, parse_command_lem}

abbrev typed : Mem
typed b = get_or (b'l' ∷ b's' ∷ b' ' ∷ b'a' ∷ []) (b - 1000) 0

name_chars : (j : ℕ) → j < 2 → ends_word (typed (1000 + (0 + j))) ≡ false
name_chars zero h = refl
name_chars (suc zero) h = refl
name_chars (suc (suc j)) h = absurd (omega arith)

name-IsWord : IsWord typed 1000 0 2
name-IsWord = record { chars = name_chars; ended = refl; short = omega arith }

argument_chars : (j : ℕ) → j < 1 → ends_word (typed (1000 + (3 + j))) ≡ false
argument_chars zero h = refl
argument_chars (suc j) h = absurd (omega arith)

argument-IsWord : IsWord typed 1000 3 1
argument-IsWord = record { chars = argument_chars; ended = refl; short = omega arith }

-- The second character of the name, and the argument.
parse_command_lem_example :
    (m' : Mem) × (parse_command 256 typed 1000 2000 3000 ≡ some m')
    × (m' 2001 ≡ b's')
    × (m' 3000 ≡ b'a')
parse_command_lem_example =
    parse_command_lem 256 typed 1000 2000 3000 2 1 1 0 (omega arith) (omega arith) name-IsWord
      argument-IsWord (inr (omega arith)) (inr (omega arith)) (inr (omega arith)) (omega arith)
      (omega arith)
