-- ===== src/Tests/Strings.antt =====
-- The string functions of lib.c on a word in memory.
use ece391_os.Common.{
  ℕ, zero, suc, ◌+◌, ◌-◌, ◌<◌, ◌≤◌, ◌≡◌, ◌≢◌, ◌↔◌, refl, inr, arith, leb, ltb, ◌&&◌, if◌then◌else◌,
  some, [], ◌∷◌, get_or, pos,
}
use ece391_os.Memory.{Mem}
use ece391_os.Memory.Copy.{copied}
use ece391_os.CString.{strlen, strcpy, strncpy, strncmp, strrev, itoa}
use ece391_os.CString.Length.{EndsAt, text, strlen_lem}
use ece391_os.CString.Compare.{AreBytes, strncmp-zero_iff}
use ece391_os.CString.Copy.{strncpy_lem, strcpy_lem}
use ece391_os.User.{ece391_strcmp}
use ece391_os.User.Compare.{IsVerdict, ece391_strcmp-IsVerdict}
use ece391_os.CString.Reverse.{strrev_lem}
use ece391_os.CString.Number.{Printed, itoa_lem}

-- "cat" at 100.
abbrev pub word : Mem
word b = get_or (99 ∷ 97 ∷ 116 ∷ []) (b - 100) 0

word_before : (i : ℕ) → i < 3 → word (100 + i) ≢ 0
word_before zero h = omega arith
word_before (suc zero) h = omega arith
word_before (suc (suc zero)) h = omega arith
word_before (suc (suc (suc i))) h = absurd (omega arith)

pub word-EndsAt : EndsAt word 100 3
word-EndsAt = record { nul = refl; before = word_before }

word-AreBytes : AreBytes word
word-AreBytes b = in_word (b - 100)
  where
    in_word : (i : ℕ) → get_or (99 ∷ 97 ∷ 116 ∷ []) i 0 < 256
    in_word zero = omega arith
    in_word (suc zero) = omega arith
    in_word (suc (suc zero)) = omega arith
    in_word (suc (suc (suc i))) = omega arith

strlen_lem_run : strlen 4 word 100 ≡ some 3
strlen_lem_run = strlen_lem 4 word 100 3 word-EndsAt (omega arith)

strncmp-zero_iff_run : (strncmp word 100 101 2 ≡ pos 0) ↔ (text 2 word 100 ≡ text 2 word 101)
strncmp-zero_iff_run = strncmp-zero_iff 2 word 100 101 word-AreBytes

-- The seventh byte of the destination is padding.
strncpy_lem_run : strncpy word 200 100 8 206 ≡ 0
unfolding text
strncpy_lem_run = strncpy_lem 8 word 200 100 206 (inr (omega arith))

strcpy_lem_run :
    (m' : Mem) × (strcpy 4 word 200 100 ≡ some m') × ((b : ℕ) → m' b ≡ copied word 200 100 4 b)
strcpy_lem_run = strcpy_lem 4 word 200 100 3 word-EndsAt (inr (omega arith)) (omega arith)

strrev_lem_run :
    (m' : Mem) × (strrev 4 word 100 ≡ some m')
    × ((b : ℕ) → m' b ≡ (if leb 100 b && ltb b 103 then word (100 + (100 + 3 - 1 - b)) else word b))
strrev_lem_run = strrev_lem 4 word 100 3 word-EndsAt (omega arith)

itoa_lem_example :
    (m' : Mem) × (k : ℕ) × (itoa word 391 500 16 ≡ some m')
    × Printed word m' 391 500 16 k
    × (1 ≤ k)
    × (k ≤ 32)
itoa_lem_example = itoa_lem word 391 500 16 (omega arith) (omega arith) (omega arith)

-- "cat" and "at".
ece391_strcmp-IsVerdict_example :
    IsVerdict (99 ∷ 97 ∷ 116 ∷ []) (97 ∷ 116 ∷ []) (ece391_strcmp 4 word 100 101)
ece391_strcmp-IsVerdict_example =
    ece391_strcmp-IsVerdict 4 word 100 101 (99 ∷ 97 ∷ 116 ∷ []) (97 ∷ 116 ∷ [])
      (refl, omega arith, (refl, omega arith, (refl, omega arith, refl)))
      (refl, omega arith, (refl, omega arith, refl)) (omega arith)
