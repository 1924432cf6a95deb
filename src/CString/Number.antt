-- ===== src/CString/Number.antt =====
-- itoa of lib.c prints a number that reads back, in every radix that it has digits for.
use ece391_os.Common.{
  ℕ, zero, suc, ◌+◌, ◌-◌, ◌*◌, ◌/◌, ◌%◌, ◌^◌, ◌≤◌, ◌<◌, ◌≡◌, ◌≢◌, refl, ◌∙◌, arith, true, false,
  leb, ltb, ◌==◌, ◌&&◌, not, if◌then◌else◌, some, ◌⊎◌, ne→==, List, [], ◌∷◌, length, get_or, Bool,
  all_below, all_below_sound, get_or-pos,
}
use ece391_os.Memory.{Mem, upd}
use ece391_os.CString.{digit_char, itoa_loop, itoa}
use ece391_os.CString.Length.{EndsAt}
use ece391_os.CString.Digits.{
  digits, number, number-digits, digits-lt, length-digits, length-digits-le, digits-pos,
}
use ece391_os.CString.Reverse.{strrev_lem}

-- The value of a digit's character, and of a run of `n` of them, highest first.
pub digit_value : ℕ → ℕ
digit_value c = if ltb c 58 then c - 48 else c - 55

pub numeral : Mem → ℕ → ℕ → ℕ → ℕ
unfolding digit_value
numeral m a zero r = 0
numeral m a (suc n) r = numeral m a n r * r + digit_value (m (a + n))

abbrev reads_back : ℕ → Bool
reads_back d = (digit_value (digit_char d) == d) && not (digit_char d == 0)

char_table : all_below 36 reads_back ≡ true
unfolding all_below digit_value digit_char
char_table = refl

digit_value-digit_char : (d : ℕ) → d < 36 → (digit_value (digit_char d) ≡ d) × (digit_char d ≢ 0)
digit_value-digit_char d h = ground (arith, all_below_sound 36 reads_back d char_table h)

itoa_loop_lem :
    (rounds : ℕ) (m : Mem) (newbuf v r b : ℕ)
    → let ds = digits rounds v r in
      let (m', end) = itoa_loop rounds m newbuf v r in
      (end ≡ newbuf + length ds)
      × (m' b ≡ (
          if leb newbuf b && ltb b (newbuf + length ds)
          then digit_char (get_or ds (b - newbuf) 0)
          else m b))
unfolding itoa_loop digits upd
itoa_loop_lem zero m newbuf v r b = ground arith
itoa_loop_lem (suc rounds) m newbuf v r b = ground (
  arith,
  itoa_loop_lem rounds (upd m newbuf (digit_char (v % r))) (newbuf + 1) (v / r) r b,
  get_or-pos (v % r) (digits rounds (v / r) r) (b - newbuf) 0,
)

-- A run of characters that stand for the digits, highest first.
numeral-number :
    (m : Mem) (a r : ℕ) (ds : List ℕ)
    → ((i : ℕ) → i < length ds → digit_value (m (a + i)) ≡ get_or ds (length ds - 1 - i) 0)
    → numeral m a (length ds) r ≡ number r ds
unfolding numeral number
numeral-number m a r [] h = refl
numeral-number m a r (d ∷ ds) h =
    let rest : numeral m a (length ds) r ≡ number r ds =
      numeral-number m a r ds (λ i p. ground (arith, h i, get_or-pos d ds (length ds - i) 0)) in
    ground (arith, rest, h (length ds))

-- What itoa leaves at `buf`: a string of `k` characters that reads back as the number.
pub record Printed (m m' : Mem) (value buf radix k : ℕ) : Type 0 where
  pub ends : EndsAt m' buf k
  pub reads : numeral m' buf k radix ≡ value
  pub outside : (b : ℕ) → (b < buf) ⊎ (buf + k < b) → m' b ≡ m b

-- The loop and the NUL behind it, before the string is reversed.
itoa_loop-EndsAt :
    (m : Mem) (value buf r : ℕ)
    → 2 ≤ r
    → r ≤ 36
    → let k = length (digits value value r) in
      let (m', end) = itoa_loop value m buf value r in EndsAt (upd m' end 0) buf k
unfolding upd
itoa_loop-EndsAt m value buf r p q = record {
  nul = ground (arith, itoa_loop_lem value m buf value r buf);
  before = λ i h. ground (
    arith,
    itoa_loop_lem value m buf value r (buf + i),
    digits-lt value value r i,
    digit_value-digit_char (get_or (digits value value r) i 0),
  );
}

-- `m'` is `m` with the characters of the digits `ds`, highest first, and a NUL at `buf`.
pub record Spelled (m m' : Mem) (ds : List ℕ) (buf : ℕ) : Type 0 where
  pub ends : EndsAt m' buf (length ds)
  pub chars : (i : ℕ) → i < length ds → m' (buf + i) ≡ digit_char (get_or ds (length ds - 1 - i) 0)
  pub outside : (b : ℕ) → (b < buf) ⊎ (buf + length ds < b) → m' b ≡ m b

pub itoa_nonzero :
    (m : Mem) (value buf r : ℕ)
    → value ≢ 0
    → 2 ≤ r
    → r ≤ 36
    → (m' : Mem) × (itoa m value buf r ≡ some m') × Spelled m m' (digits value value r) buf
unfolding itoa
itoa_nonzero m value buf r ne p q =
    let ds = digits value value r in
    let k = length ds in
    let (m1, end) = itoa_loop value m buf value r in
    let at_least : ltb r 2 ≡ false = ground arith in
    let fits : k < value + 1 = omega (arith, length-digits-le value value r) in
    let (m', eq, all) =
      strrev_lem (value + 1) (upd m1 end 0) buf k (itoa_loop-EndsAt m value buf r p q) fits in
    (
      m',
      rw (ne→== value 0 ne, at_least) eq,
      record {
        ends = record {
          nul = ground (arith, all (buf + k), (itoa_loop-EndsAt m value buf r p q).nul);
          before = λ i h.
              ground
                (arith, all (buf + i), (itoa_loop-EndsAt m value buf r p q).before (k - 1 - i));
        };
        chars = λ i h.
            ground (arith, all (buf + i), itoa_loop_lem value m buf value r (buf + (k - 1 - i)));
        outside = λ b h. ground (arith, all b, itoa_loop_lem value m buf value r b);
      },
    )

Spelled-Printed :
    (m m' : Mem) (value buf r : ℕ)
    → 2 ≤ r
    → r ≤ 36
    → Spelled m m' (digits value value r) buf
    → Printed m m' value buf r (length (digits value value r))
Spelled-Printed m m' value buf r p q s =
    let ds = digits value value r in
    let k = length ds in
    record {
      ends = s.ends;
      reads =
          numeral-number m' buf r ds (λ i h. ground (
            arith,
            s.chars i,
            digits-lt value value r (k - 1 - i),
            digit_value-digit_char (get_or ds (k - 1 - i) 0),
          ))
          ∙ number-digits value value r (omega arith) p;
      outside = s.outside;
    }

-- For a radix from 2 to 36 and a 32-bit value, itoa returns, and leaves at `buf` a string of 1 to 32
-- characters that reads back as the value, and changes nothing outside it.
pub itoa_lem :
    (m : Mem) (value buf radix : ℕ)
    → 2 ≤ radix
    → radix ≤ 36
    → value < 2 ^ 32
    → (m' : Mem) × (k : ℕ) × (itoa m value buf radix ≡ some m')
      × Printed m m' value buf radix k
      × (1 ≤ k)
      × (k ≤ 32)
itoa_lem m zero buf r p q h = (
  upd (upd m buf 48) (buf + 1) 0,
  1,
  unfold itoa in refl,
  unfold upd numeral digit_value in
      record {
        ends = record { nul = ground arith; before = λ i l. ground arith };
        reads = ground arith;
        outside = λ b o. ground arith;
      },
  omega arith,
  omega arith,
)
itoa_lem m (suc v) buf r p q h =
    let (m', eq, spelled) = itoa_nonzero m (suc v) buf r (omega arith) p q in
    (
      m',
      length (digits (suc v) (suc v) r),
      eq,
      Spelled-Printed m m' (suc v) buf r p q spelled,
      digits-pos v v r,
      length-digits (suc v) (suc v) r 32 p h,
    )
