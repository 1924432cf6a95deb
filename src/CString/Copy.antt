-- ===== src/CString/Copy.antt =====
-- What strcpy and strncpy of lib.c leave in memory.
use ece391_os.Common.{
  ℕ, zero, suc, ◌+◌, ◌-◌, ◌≤◌, ◌<◌, ◌≡◌, ◌⊎◌, refl, arith, leb, ltb, ◌==◌, ◌&&◌, if◌then◌else◌,
  some, length, Bool-cases, inl, inr,
}
use ece391_os.Memory.{Mem, upd}
use ece391_os.Memory.Copy.{copied}
use ece391_os.CString.{strcpy_from, strcpy, strncpy_pad, strncpy_from, strncpy}
use ece391_os.CString.Length.{text, EndsAt, length-text}

-- Blocks of `n` bytes that do not meet.
abbrev pub Apart : ℕ → ℕ → ℕ → Type 0
Apart d s n = (d + n ≤ s) ⊎ (s + n ≤ d)

strncpy_pad_lem :
    (r : ℕ) (m : Mem) (d i b : ℕ)
    → strncpy_pad r m d i b ≡ (if leb (d + i) b && ltb b (d + i + r) then 0 else m b)
unfolding strncpy_pad upd
strncpy_pad_lem zero m d i b = ground arith
strncpy_pad_lem (suc r) m d i b = ground (arith, strncpy_pad_lem r (upd m (d + i) 0) d (i + 1) b)

-- A write outside a block leaves its text.
text-upd : (n : ℕ) (m : Mem) (s a v : ℕ) → (a < s) ⊎ (s + n ≤ a) → text n (upd m a v) s ≡ text n m s
unfolding text upd
text-upd zero m s a v h = refl
text-upd (suc n) m s a v h = ground (arith, text-upd n m (s + 1) a v)

-- The text, and NULs up to `n`.
abbrev pub padded : Mem → ℕ → ℕ → ℕ → ℕ → Mem
padded m d s k n b =
    if leb d b && ltb b (d + n) then (if ltb b (d + k) then m (s + (b - d)) else 0) else m b

strncpy_from_lem :
    (r : ℕ) (m : Mem) (d s i b : ℕ)
    → Apart d s (i + r)
    → strncpy_from r m d s i b ≡ padded m (d + i) (s + i) (length (text r m (s + i))) r b
unfolding strncpy_from upd text
strncpy_from_lem zero m d s i b h = ground arith
strncpy_from_lem (suc r) m d s i b h =
    let a : s + (i + 1) ≡ s + i + 1 = omega arith in
    ground (
      arith,
      a,
      strncpy_pad_lem (suc r) m d i b,
      strncpy_from_lem r (upd m (d + i) (m (s + i))) d s (i + 1) b,
      text-upd r m (s + i + 1) (d + i) (m (s + i)),
      length-text r m (s + i + 1),
    )

-- strncpy copies the text of `src`, at most `n` characters of it, fills the rest of the `n` bytes at
-- `dest` with NULs and changes nothing else, if the two blocks of `n` bytes are apart.
pub strncpy_lem :
    (n : ℕ) (m : Mem) (dest src b : ℕ)
    → Apart dest src n
    → strncpy m dest src n b ≡ padded m dest src (length (text n m src)) n b
unfolding strncpy
strncpy_lem n m d s b h =
    let (p, q) : (d + 0 ≡ d) × (s + 0 ≡ s) = omega arith in
    ground (arith, p, q, strncpy_from_lem n m d s 0 b)

-- A write outside a string leaves its end.
EndsAt-upd : (m : Mem) (s k a v : ℕ) → (a < s) ⊎ (s + k < a) → EndsAt m s k → EndsAt (upd m a v) s k
unfolding upd
EndsAt-upd m s k a v h e = record {
  nul = ground (arith, e.nul);
  before = λ i p. ground (arith, e.before i p);
}

strcpy_from_lem :
    (fuel : ℕ) (m : Mem) (d s i k : ℕ)
    → EndsAt m s k
    → Apart d s (k + 1)
    → i ≤ k
    → k < i + fuel
    → (m' : Mem) × (strcpy_from fuel m d s i ≡ some m')
      × ((b : ℕ) → m' b ≡ copied m (d + i) (s + i) (k + 1 - i) b)
unfolding strcpy_from upd
strcpy_from_lem zero m d s i k e h p q = absurd (omega arith)
strcpy_from_lem (suc fuel) m d s i k e h p q = elim (Bool-cases (m (s + i) == 0)) [
  | inl z ↦ (upd m (d + i) 0, rw z, λ b. ground (arith, e.before i))
  | inr nz ↦
      let m2 = upd m (d + i) (m (s + i)) in
      let le : i + 1 ≤ k = ground (arith, e.nul) in
      let (m', eq, all) =
        strcpy_from_lem fuel m2 d s (i + 1) k (EndsAt-upd m s k (d + i) (m (s + i)) (omega arith) e)
          h le (omega arith) in
      (m', rw nz eq, λ b. ground (arith, all b))
]

-- With more fuel than the string is long, strcpy copies it to `dest`, its NUL included, and changes
-- nothing else, if the two blocks are apart.
pub strcpy_lem :
    (fuel : ℕ) (m : Mem) (dest src k : ℕ)
    → EndsAt m src k
    → Apart dest src (k + 1)
    → k < fuel
    → (m' : Mem) × (strcpy fuel m dest src ≡ some m')
      × ((b : ℕ) → m' b ≡ copied m dest src (k + 1) b)
unfolding strcpy
strcpy_lem fuel m d s k e h q =
    let (p1, p2) : (d + 0 ≡ d) × (s + 0 ≡ s) = omega arith in
    let (m', eq, all) = strcpy_from_lem fuel m d s 0 k e h (omega arith) (omega arith) in
    (m', eq, λ b. ground (arith, p1, p2, all b))
