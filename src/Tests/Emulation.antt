-- ===== src/Tests/Emulation.antt =====
-- ece391_getargs of ece391emulate.c on two arguments.
use ece391_os.Common.{◌-◌, refl, inl, arith, [], ◌∷◌, get_or}
use ece391_os.Memory.{Mem}
use ece391_os.Emulation.{emulated_getargs}
use ece391_os.Emulation.Arguments.{HasJoined, emulated_getargs-joined}

-- "ls" at 100 and "x" at 103.
abbrev given : Mem
given b = get_or (108 ∷ 115 ∷ 0 ∷ 120 ∷ 0 ∷ []) (b - 100) 0

emulated_getargs-joined_example :
    HasJoined given 200 8
      (108 ∷ 115 ∷ 32 ∷ 120 ∷ [])
      (emulated_getargs 8 (100 ∷ 103 ∷ []) given 200 8)
emulated_getargs-joined_example =
    emulated_getargs-joined 8 (100 ∷ 103 ∷ []) ((108 ∷ 115 ∷ []) ∷ (120 ∷ []) ∷ []) given 200 8
      (
        (refl, omega arith, (refl, omega arith, refl)),
        omega arith,
        inl (omega arith),
        ((refl, omega arith, refl), omega arith, inl (omega arith), tt),
      )
      (omega arith)
