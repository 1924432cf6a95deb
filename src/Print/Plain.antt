-- ===== src/Print/Plain.antt =====
-- printf (lib.c) on text without a `%`.
use ece391_os.Common.{
  ℕ, zero, suc, ◌+◌, ◌-◌, ◌≤◌, ◌<◌, ◌≡◌, refl, sym, ◌∙◌, none, arith, Bool, true, false, not, ◌==◌,
  some, Option-cases, inl, inr, List, [], ◌∷◌, length, get_or, all_below, all_below_sound,
}
use ece391_os.Memory.{Mem}
use ece391_os.CString.{digit_char}
use ece391_os.CString.Digits.{digits, digits-lt}
use ece391_os.Print.{Putc, printf_from, printf}
use ece391_os.Print.Digits.{spell, number_text}
use ece391_os.Print.Text.{IsText, emit}
use ece391_os.Print.Format.{IsPlain}

-- No digit is a `%`.
abbrev not_percent : ℕ → Bool
not_percent d = not (digit_char d == b'%')

percent_table : all_below 36 not_percent ≡ true
unfolding all_below digit_char
percent_table = refl

spell-IsPlain :
    (ds acc : List ℕ)
    → ((i : ℕ) → i < length ds → get_or ds i 0 < 36)
    → IsPlain acc
    → IsPlain (spell ds acc)
unfolding spell
spell-IsPlain [] acc h p = p
spell-IsPlain (d ∷ ds) acc h p =
    let small : d < 36 = h 0 (omega arith) in
    spell-IsPlain ds (digit_char d ∷ acc) (λ i l. h (suc i) (omega arith))
      (ground (arith, all_below_sound 36 not_percent d percent_table small), p)

pub number_text-IsPlain : (r v : ℕ) → 2 ≤ r → r ≤ 36 → IsPlain (number_text r v)
unfolding number_text
number_text-IsPlain r zero p q = omega arith
number_text-IsPlain r (suc v) p q =
    spell-IsPlain (digits (suc v) (suc v) r) []
      (λ i l. omega (arith, digits-lt (suc v) (suc v) r i p l)) tt

-- What printf does with text without a `%`: it emits the characters, and leaves the memory.
printf_from-plain {ℓ} :
    {S : Type ℓ} (putc : Putc S) (size chars conv format buf : ℕ) (args : List ℕ) (m : Mem)
    (s s' : S) (cs : List ℕ)
    → IsText m buf cs
    → IsPlain cs
    → length cs < size
    → emit putc cs s ≡ some s'
    → printf_from putc size chars conv format buf args m s ≡ some (buf + length cs - format, m, s')
unfolding printf_from emit
printf_from-plain putc zero chars conv format buf args m s s' cs t p h e = absurd (omega arith)
printf_from-plain putc (suc size) chars conv format buf args m s s' [] t p h e = ground (arith, t)
printf_from-plain putc (suc size) chars conv format buf args m s s' (c ∷ cs) t p h e =
    let more : (m buf == 0) ≡ false = ground (arith, t.0, t.1) in
    let text : (m buf == b'%') ≡ false = ground (arith, t.0, p.0) in
    elim (Option-cases (putc c s)) [
      | inl lost ↦
          let step : emit putc (c ∷ cs) s ≡ none = rw lost refl in absurd (cc (sym step ∙ e))
      | inr (s1, f) ↦
          let e1 : emit putc cs s1 ≡ some s' =
            let step : emit putc (c ∷ cs) s ≡ emit putc cs s1 = rw f refl in sym step ∙ e in
          let total : buf + length (c ∷ cs) - format ≡ buf + 1 + length cs - format = omega arith in
          rw (more, text, t.0, f, total)
            (printf_from-plain putc size chars conv format (buf + 1) args m s1 s' cs t.2 p.1
              (omega arith) e1)
    ]

pub printf-plain {ℓ} :
    {S : Type ℓ} (putc : Putc S) (size chars conv buf : ℕ) (args : List ℕ) (m : Mem) (s s' : S)
    (cs : List ℕ)
    → IsText m buf cs
    → IsPlain cs
    → length cs < size
    → emit putc cs s ≡ some s'
    → printf putc size chars conv buf args m s ≡ some (length cs, m, s')
unfolding printf
printf-plain putc size chars conv buf args m s s' cs t p h e =
    let total : buf + length cs - buf ≡ length cs = omega arith in
    printf_from-plain putc size chars conv buf buf args m s s' cs t p h e ∙ rw total refl
