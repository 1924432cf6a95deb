-- ===== src/Print/Digits.antt =====
-- The text that itoa (lib.c) puts into a buffer.
use ece391_os.Common.{
  ℕ, zero, suc, ◌+◌, ◌-◌, ◌^◌, ◌≤◌, ◌<◌, ◌≡◌, ◌⊎◌, refl, ◌∙◌, arith, ltb, if◌then◌else◌, some, List,
  [], ◌∷◌, length, get_or, get_or-pos,
}
use ece391_os.Memory.{Mem, upd}
use ece391_os.CString.{digit_char, itoa}
use ece391_os.CString.Digits.{digits, length-digits, length-digits_hex}
use ece391_os.CString.Number.{itoa_nonzero}
use ece391_os.Print.Text.{IsText, EndsAt-IsText}

-- The characters of digits that stand lowest first, in front of `acc`.
unfoldable pub spell : List ℕ → List ℕ → List ℕ
spell [] acc = acc
spell (d ∷ ds) acc = spell ds (digit_char d ∷ acc)

-- A number in a radix, as it is written.
unfoldable pub number_text : ℕ → ℕ → List ℕ
unfolding spell
number_text r zero = b'0' ∷ []
number_text r (suc v) = spell (digits (suc v) (suc v) r) []

length-spell : (ds acc : List ℕ) → length (spell ds acc) ≡ length ds + length acc
unfolding spell
length-spell [] acc = omega arith
length-spell (d ∷ ds) acc = omega (arith, length-spell ds (digit_char d ∷ acc))

get_or-spell :
    (ds acc : List ℕ) (i : ℕ)
    → get_or (spell ds acc) i 0 ≡ (
        if ltb i (length ds)
        then digit_char (get_or ds (length ds - 1 - i) 0)
        else get_or acc (i - length ds) 0)
unfolding spell
get_or-spell [] acc i = ground arith
get_or-spell (d ∷ ds) acc i = ground (
  arith,
  get_or-spell ds (digit_char d ∷ acc) i,
  get_or-pos d ds (length ds - i) 0,
  get_or-pos (digit_char d) acc (i - length ds) 0,
)

-- itoa returns, for a radix from 2 to 36 and a 32-bit value; it leaves the text of the number
-- and its NUL at `buf`, 33 bytes at most, and changes nothing else.
pub itoa-number_text :
    (m : Mem) (v buf r : ℕ)
    → 2 ≤ r
    → r ≤ 36
    → v < 2 ^ 32
    → (m' : Mem) × (itoa m v buf r ≡ some m')
      × IsText m' buf (number_text r v)
      × (length (number_text r v) ≤ 32)
      × ((b : ℕ) → (b < buf) ⊎ (buf + length (number_text r v) < b) → m' b ≡ m b)
unfolding number_text
itoa-number_text m zero buf r p q h = (
  upd (upd m buf 48) (buf + 1) 0,
  unfold itoa in refl,
  unfold upd in ground arith,
  omega arith,
  unfold upd in (λ b o. ground arith),
)
itoa-number_text m (suc v) buf r p q h =
    let ds = digits (suc v) (suc v) r in
    let (m', eq, s) = itoa_nonzero m (suc v) buf r (omega arith) p q in
    let long : length (spell ds []) ≡ length ds = omega (arith, length-spell ds []) in
    (
      m',
      eq,
      EndsAt-IsText m' buf (spell ds []) (rw long s.ends)
          (λ i l. s.chars i (omega arith) ∙ ground (arith, get_or-spell ds [] i)),
      omega (arith, length-digits (suc v) (suc v) r 32 p h),
      λ b o. s.outside b (omega (arith, long)),
    )

pub length-number_text_hex : (v : ℕ) → v < 2 ^ 32 → length (number_text 16 v) ≤ 8
unfolding number_text
length-number_text_hex zero h = omega arith
length-number_text_hex (suc v) h =
    omega
      (arith, length-spell (digits (suc v) (suc v) 16) [], length-digits_hex (suc v) (suc v) 8 h)
