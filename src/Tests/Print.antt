-- ===== src/Tests/Print.antt =====
-- printf and terminal_write (lib.c, terminal.c) of a short format.
use ece391_os.Common.{
  Holds, ℕ, ◌-◌, ◌≡◌, refl, inl, arith, some, none, List, [], ◌∷◌, get_or, ◌>>=◌, pos,
}
use ece391_os.Memory.{Mem}
use ece391_os.Print.{Putc, printf}
use ece391_os.Print.Text.{IsText, emit}
use ece391_os.Print.Digits.{number_text}
use ece391_os.CString.{digit_char}
use ece391_os.CString.Digits.{digits}
use ece391_os.Print.Format.{render, Agree}
use ece391_os.Print.Run.{printf-render}
use ece391_os.Screen.{Screen, putc}
use ece391_os.Screen.Bounds.{IsWithin, printf-IsWithin}
use ece391_os.Screen.Cursor.{OnScreen}
use ece391_os.Screen.Output.{printed_all}
use ece391_os.Terminal.{Terminals}
use ece391_os.Terminal.Active.{terminal_write}
use ece391_os.Terminal.Write.{
  Shows, WrittenBehind, terminal_write-WrittenBehind, terminal_write-printed_all,
}
use ece391_os.Tests.Screen.{top_left, top_left-OnScreen}
use ece391_os.Tests.Terminal.{three}

-- "n=%d%%".
abbrev format : List ℕ
format = 110 ∷ 61 ∷ 37 ∷ 100 ∷ 37 ∷ 37 ∷ []

abbrev format_at : Mem
format_at b = get_or format (b - 100) 0

format_at-IsText : IsText format_at 100 format
format_at-IsText = (
  refl,
  omega arith,
  (
    refl,
    omega arith,
    (refl, omega arith, (refl, omega arith, (refl, omega arith, (refl, omega arith, refl)))),
  ),
)

-- "n=-5%".
abbrev output : List ℕ
output = 110 ∷ 61 ∷ 45 ∷ 53 ∷ 37 ∷ []

format-output : render 34 1000 format_at none format (0xFFFFFFFB ∷ []) ≡ some output
unfolding render number_text digits digit_char
format-output = refl

-- A character at the end of a list.
abbrev snoc : Putc (List ℕ)
snoc c s = some (c ∷ s)

printf-render_example :
    (m' : Mem) × Agree format_at m' 1000
    × ((s : List ℕ)
        → printf snoc 7 34 1000 100 (0xFFFFFFFB ∷ []) format_at s
          ≡ (emit snoc output s >>= (λ s'. some (6, m', s'))))
printf-render_example =
    printf-render snoc 7 34 1000 format_at 100 format (0xFFFFFFFB ∷ []) output (omega arith)
      (inl (omega arith)) format_at-IsText (omega arith) (omega arith, tt) format-output

-- Process 1 writes while terminal 0 is shown.
abbrev behind : Terminals
behind = record three { cur_active = 1 }

abbrev like : Screen
like = record top_left { screen_x = 7; screen_y = 3 }

like-OnScreen : OnScreen like
like-OnScreen = record { column = omega arith; row = omega arith }

behind-Shows : Shows (behind.term 1) like
behind-Shows = record { column = refl; row = refl; characters = λ b l e. refl }

terminal_write-WrittenBehind_example :
    (m' : Mem) × (s' : Terminals) × (terminal_write 3 7 34 1000
        (0xFFFFFFFB ∷ [])
        (pos 1)
        100
        (pos 2)
        format_at
        behind
      ≡ some (pos 6, m', s'))
    × WrittenBehind (printed_all output like) behind s'
terminal_write-WrittenBehind_example =
    terminal_write-WrittenBehind 3 7 34 1000 (0xFFFFFFFB ∷ []) (pos 1) 100 (pos 2) format_at behind
      like format output (omega arith) like-OnScreen behind-Shows (omega arith) (omega arith)
      (inl (omega arith)) format_at-IsText (omega arith) (omega arith, tt) format-output

abbrev plain : Mem
plain b = get_or (104 ∷ 105 ∷ []) (b - 100) 0

terminal_write-printed_all_example :
    (m' : Mem) × Agree plain m' 1000
    × (terminal_write 3 3 34 1000 [] (pos 1) 100 (pos 2) plain three
        ≡ some (pos 2, m', record three { screen = printed_all (104 ∷ 105 ∷ []) top_left }))
terminal_write-printed_all_example =
    terminal_write-printed_all 3 3 34 1000 [] (pos 1) 100 (pos 2) plain three (104 ∷ 105 ∷ []) refl
      top_left-OnScreen (omega arith) (omega arith) (inl (omega arith))
      (refl, omega arith, (refl, omega arith, refl)) (omega arith) tt
      (omega arith, (omega arith, tt))

printf-IsWithin_example :
    Holds
      (λ (o : ℕ × Mem × Screen). IsWithin like o.2)
      (printf (putc 3) 7 34 1000 100 [] format_at like)
printf-IsWithin_example =
    printf-IsWithin 3 7 34 1000 100 [] format_at like (omega arith) like-OnScreen
