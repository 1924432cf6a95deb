-- ===== src/Tests/Fish.antt =====
-- A line of fish.c on two files in memory.
use ece391_os.Common.{
  ℕ, ltb, if◌then◌else◌, true, false, some, List, [], ◌∷◌, ◌++◌, ℤ, pos, minus_one, ◌==◌,
}
use ece391_os.CString.{codes}
use ece391_os.Memory.{upd}
use ece391_os.User.Calls.{Machine, Run, Calls, give}
use ece391_os.Fish.{Blink}

pub record Pond : Type 0 where
  pub left0 : List ℕ
  pub left1 : List ℕ
  pub asked : List Blink

abbrev taken0 : List ℕ → ℕ → Run Pond ℤ
taken0 [] a u = some (pos 0, u)
taken0 (x ∷ xs) a u =
    some (pos 1, record { memory = upd u.memory a x; world = record u.world { left0 = xs } })

abbrev taken1 : List ℕ → ℕ → Run Pond ℤ
taken1 [] a u = some (pos 0, u)
taken1 (x ∷ xs) a u =
    some (pos 1, record { memory = upd u.memory a x; world = record u.world { left1 = xs } })

-- Descriptor 2 is the first file, and the others are the second.
abbrev read_pond : ℤ → ℕ → Run Pond ℤ
read_pond (pos fd) a u = elim (fd == 2) [
  | true ↦ taken0 u.world.left0 a u
  | false ↦ taken1 u.world.left1 a u
]
read_pond (ℤ.negsuc n) a u = some (minus_one, u)

abbrev pond_calls : Calls Pond
pond_calls = record {
  ece391_execute = λ a. give minus_one;
  ece391_read = λ fd a n. read_pond fd a;
  ece391_write = λ fd a n. give minus_one;
  ece391_open = λ a. give minus_one;
  ece391_close = λ fd. give (pos 0);
  ece391_getargs = λ a n. give minus_one;
  ece391_vidmap = λ a. give minus_one;
  literal = λ t. 0;
  chars = 16;
}

-- A place behind the screen is refused; the other blinks go to a list at 5000.
abbrev keep_blink : Blink → Run Pond ℤ
keep_blink b u =
    let w = record u.world { asked = u.world.asked ++ (b ∷ []) } in
    if ltb b.location 2000
    then some (pos 0, record { memory = upd u.memory 5000 b.on_char; world = w })
    else some (minus_one, record u { world = w })

-- "<o" and "c", each with the start of the next line.
abbrev pond : Machine Pond
pond = record {
  memory = λ b. 48;
  world = record { left0 = codes "<o\n>"; left1 = codes "c\n"; asked = [] };
}
