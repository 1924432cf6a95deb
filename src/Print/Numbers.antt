-- ===== src/Print/Numbers.antt =====
-- The numbers of printf (lib.c): what the buffer of %x, %#x, %u and %d holds.
use ece391_os.Common.{
  ℕ, zero, suc, ◌+◌, ◌-◌, ◌^◌, ◌≤◌, ◌<◌, ◌≡◌, ◌⊎◌, inl, inr, refl, ◌∙◌, ap, arith, true, false,
  Bool-cases, ◌==◌, ltb, leb, ◌&&◌, if◌then◌else◌, some, List, ◌∷◌, ◌++◌, length, replicate,
  length-append,
}
use ece391_os.Memory.{Mem, upd}
use ece391_os.CString.Length.{strlen_lem}
use ece391_os.Print.{pad_from, number_string}
use ece391_os.Print.Text.{IsText, IsText-EndsAt, IsText-kept}
use ece391_os.Print.Digits.{number_text, itoa-number_text, length-number_text_hex}

-- How the word `v` is written for the specifier `c`: %d is signed, and %#x has 8 digits at least.
unfoldable pub argument_text : ℕ → ℕ → ℕ → List ℕ
argument_text c alternate v =
    if c == b'x'
    then (if alternate == 0
        then number_text 16 v
        else replicate (8 - length (number_text 16 v)) b'0' ++ number_text 16 v)
    else if c == b'd' && leb (2 ^ 31) v
    then b'-' ∷ number_text 10 (2 ^ 32 - v)
    else number_text 10 v

pad_from_lem :
    (r : ℕ) (m : Mem) (conv i b : ℕ)
    → pad_from r m conv i b ≡ (if leb (conv + i) b && ltb b (conv + i + r) then b'0' else m b)
unfolding pad_from upd
pad_from_lem zero m conv i b = ground arith
pad_from_lem (suc r) m conv i b =
    ground (arith, pad_from_lem r (upd m (conv + i) b'0') conv (i + 1) b)

add_0 : (a : ℕ) → a + 0 ≡ a
add_0 a = omega arith

IsText-replicate :
    (r : ℕ) (m : Mem) (a : ℕ) (xs : List ℕ)
    → ((b : ℕ) → a ≤ b → b < a + r → m b ≡ b'0')
    → IsText m (a + r) xs
    → IsText m a (replicate r b'0' ++ xs)
IsText-replicate zero m a xs h t = rw (← add_0 a) t
IsText-replicate (suc r) m a xs h t =
    let same : a + suc r ≡ a + 1 + r = omega arith in
    (
      h a (omega arith) (omega arith),
      omega arith,
      IsText-replicate r m (a + 1) xs (λ b l u. h b (omega arith) (omega arith)) (rw (← same) t),
    )

length-replicate : (r : ℕ) → length {A = ℕ} (replicate r b'0') ≡ r
length-replicate zero = refl
length-replicate (suc r) = ap suc (length-replicate r)

-- `m'` is `m` outside the 64 bytes at `conv`, and holds `xs` at `str`.
pub record HoldsText (m m' : Mem) (conv str : ℕ) (xs : List ℕ) : Type 0 where
  pub written : IsText m' str xs
  pub short : length xs ≤ 33
  pub outside : (b : ℕ) → (b < conv) ⊎ (conv + 64 ≤ b) → m' b ≡ m b

-- What number_string returns, and leaves.
abbrev pub Written : Mem → ℕ → ℕ → ℕ → ℕ → Type 0
Written m conv c alternate v =
    (m' : Mem) × (str : ℕ) × (number_string conv c alternate v m ≡ some (m', str))
    × HoldsText m m' conv str (argument_text c alternate v)

-- A text of itoa that starts in the buffer.
itoa-HoldsText :
    (m m' : Mem) (conv str : ℕ) (xs : List ℕ)
    → conv ≤ str
    → str + length xs < conv + 64
    → IsText m' str xs
    → length xs ≤ 33
    → ((b : ℕ) → (b < str) ⊎ (str + length xs < b) → m' b ≡ m b)
    → HoldsText m m' conv str xs
itoa-HoldsText m m' conv str xs p q t s out = record {
  written = t;
  short = s;
  outside = λ b o. out b (omega arith);
}

plain_hex :
    (m : Mem) (conv c alternate v : ℕ)
    → v < 2 ^ 32
    → (c == b'x') ≡ true
    → (alternate == 0) ≡ true
    → Written m conv c alternate v
unfolding number_string argument_text
plain_hex m conv c alternate v h x plain =
    let (m', eq, t, short, out) = itoa-number_text m v conv 16 (omega arith) (omega arith) h in
    rw (number_string, argument_text, x, plain, eq)
      (
        m',
        conv,
        refl,
        itoa-HoldsText m m' conv conv (number_text 16 v) (omega arith) (omega arith) t (omega arith)
            out,
      )

padded_hex :
    (m : Mem) (conv c alternate v : ℕ)
    → v < 2 ^ 32
    → (c == b'x') ≡ true
    → (alternate == 0) ≡ false
    → Written m conv c alternate v
unfolding number_string argument_text
padded_hex m conv c alternate v h x padded =
    let xs = number_text 16 v in
    let k = length xs in
    let (m1, eq, t, short, out) =
      itoa-number_text m v (conv + 8) 16 (omega arith) (omega arith) h in
    let few : k ≤ 8 = length-number_text_hex v h in
    let m2 = pad_from (8 - k) m1 conv k in
    let len = strlen_lem 33 m1 (conv + 8) k (IsText-EndsAt m1 (conv + 8) xs t) (omega arith) in
    let place : conv + k + (8 - k) ≡ conv + 8 = omega arith in
    rw (number_string, argument_text, x, padded, eq, len)
      (
        m2,
        conv + k,
        refl,
        record {
          written =
              IsText-replicate (8 - k) m2 (conv + k) xs
                (λ b l u. ground (arith, pad_from_lem (8 - k) m1 conv k b))
                (rw place (
                  IsText-kept m1 m2 (conv + 8) xs
                    (λ b l u. ground (arith, pad_from_lem (8 - k) m1 conv k b)) t));
          short =
              omega (arith, length-append (replicate (8 - k) b'0') xs, length-replicate (8 - k));
          outside = λ b o. pad_from_lem (8 - k) m1 conv k b ∙ ground (arith, out b);
        },
      )

unsigned_decimal :
    (m : Mem) (conv c alternate v : ℕ)
    → v < 2 ^ 32
    → (c == b'x') ≡ false
    → (c == b'd' && leb (2 ^ 31) v) ≡ false
    → Written m conv c alternate v
unfolding number_string argument_text
unsigned_decimal m conv c alternate v h x d =
    let (m', eq, t, short, out) = itoa-number_text m v conv 10 (omega arith) (omega arith) h in
    rw (number_string, argument_text, x, d, eq)
      (
        m',
        conv,
        refl,
        itoa-HoldsText m m' conv conv (number_text 10 v) (omega arith) (omega arith) t (omega arith)
            out,
      )

negative_decimal :
    (m : Mem) (conv c alternate v : ℕ)
    → v < 2 ^ 32
    → (c == b'x') ≡ false
    → (c == b'd' && leb (2 ^ 31) v) ≡ true
    → Written m conv c alternate v
unfolding upd number_string argument_text
negative_decimal m conv c alternate v h x d =
    let m1 = upd m conv b'-' in
    let w = 2 ^ 32 - v in
    let big : w < 2 ^ 32 = ground arith in
    let (m', eq, t, short, out) =
      itoa-number_text m1 w (conv + 1) 10 (omega arith) (omega arith) big in
    let sign : m' conv ≡ b'-' = out conv (omega arith) ∙ ground arith in
    rw (number_string, argument_text, x, d, eq)
      (
        m',
        conv,
        refl,
        record {
          written = (sign, omega arith, t);
          short = omega arith;
          outside = λ b o. out b (omega arith) ∙ ground arith;
        },
      )

-- For any specifier of a number, number_string returns, its text is that of the argument, and it
-- changes only the buffer.
pub number_string-argument_text :
    (m : Mem) (conv c alternate v : ℕ) → v < 2 ^ 32 → Written m conv c alternate v
number_string-argument_text m conv c alternate v h = elim (Bool-cases (c == b'x')) [
  | inl x ↦ elim (Bool-cases (alternate == 0)) [
    | inl plain ↦ plain_hex m conv c alternate v h x plain
    | inr padded ↦ padded_hex m conv c alternate v h x padded
  ]
  | inr other ↦ elim (Bool-cases (c == b'd' && leb (2 ^ 31) v)) [
    | inl negative ↦ negative_decimal m conv c alternate v h other negative
    | inr unsigned ↦ unsigned_decimal m conv c alternate v h other unsigned
  ]
]
