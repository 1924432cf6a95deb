-- ===== src/Print/Text.antt =====
-- Strings in memory as lists of characters, and what puts writes of them (lib.c).
use ece391_os.Common.{
  ℕ, zero, suc, ◌+◌, ◌≤◌, ◌<◌, ◌≡◌, ◌≢◌, inl, inr, refl, sym, ◌∙◌, ap, arith, ◌==◌, Option, some,
  List, [], ◌∷◌, ◌++◌, length, get_or, Option-cases, Bool-cases, subst, false, ◌>>=◌,
}
use ece391_os.Memory.{Mem}
use ece391_os.CString.Length.{EndsAt, text}
use ece391_os.Print.{Putc, puts_from}

-- The characters of `xs`, none of them NUL, with a NUL behind them, stand at `a`.
abbrev pub IsText : Mem → ℕ → List ℕ → Type 0
IsText m a [] = m a ≡ 0
IsText m a (x ∷ xs) = (m a ≡ x) × (x ≢ 0) × IsText m (a + 1) xs

pub EndsAt-IsText :
    (m : Mem) (a : ℕ) (xs : List ℕ)
    → EndsAt m a (length xs)
    → ((i : ℕ) → i < length xs → m (a + i) ≡ get_or xs i 0)
    → IsText m a xs
EndsAt-IsText m a [] e h = ground (arith, e.nul)
EndsAt-IsText m a (x ∷ xs) e h =
    let rest =
      EndsAt-IsText m (a + 1) xs
        (record {
          nul = ap m (omega arith) ∙ e.nul;
          before = λ i p q. e.before (i + 1) (omega arith) (ap m (omega arith) ∙ q);
        })
        (λ i p. ap m (omega arith) ∙ h (suc i) (omega arith)) in
    (ground (arith, h 0), ground (arith, h 0, e.before 0), rest)

-- A text is still there in a memory that agrees on its bytes.
pub IsText-kept :
    (m m' : Mem) (a : ℕ) (xs : List ℕ)
    → ((b : ℕ) → a ≤ b → b ≤ a + length xs → m' b ≡ m b)
    → IsText m a xs
    → IsText m' a xs
IsText-kept m m' a [] h t = h a (omega arith) (omega arith) ∙ t
IsText-kept m m' a (x ∷ xs) h (p, q, r) = (
  h a (omega arith) (omega arith) ∙ p,
  q,
  IsText-kept m m' (a + 1) xs (λ b l u. h b (omega arith) (omega arith)) r,
)

IsText-nonzero : (m : Mem) (a i : ℕ) (xs : List ℕ) → IsText m a xs → i < length xs → m (a + i) ≢ 0
IsText-nonzero m a i [] t h = absurd (omega arith)
IsText-nonzero m a zero (x ∷ xs) (p, q, r) h = λ e. q (sym p ∙ (ap m (omega arith) ∙ e))
IsText-nonzero m a (suc i) (x ∷ xs) (p, q, r) h =
    λ e. IsText-nonzero m (a + 1) i xs r (omega arith) (ap m (omega arith) ∙ e)

IsText-end : (m : Mem) (a : ℕ) (xs : List ℕ) → IsText m a xs → m (a + length xs) ≡ 0
IsText-end m a [] t = ap m (omega arith) ∙ t
IsText-end m a (x ∷ xs) (p, q, r) = ap m (omega arith) ∙ IsText-end m (a + 1) xs r

pub IsText-EndsAt : (m : Mem) (a : ℕ) (xs : List ℕ) → IsText m a xs → EndsAt m a (length xs)
IsText-EndsAt m a xs t = record {
  nul = IsText-end m a xs t;
  before = λ i h. IsText-nonzero m a i xs t h;
}

-- The bytes before the first NUL are a text, if the NUL is there.
pub text-IsText :
    (n : ℕ) (m : Mem) (a : ℕ) → m (a + length (text n m a)) ≡ 0 → IsText m a (text n m a)
unfolding text
text-IsText zero m a h = ap m (omega arith) ∙ h
text-IsText (suc n) m a h = elim (Bool-cases (m a == 0)) [
  | inl z ↦ rw z (ground arith)
  | inr nz ↦
      let step : text (suc n) m a ≡ m a ∷ text n m (a + 1) = rw nz refl in
      let rest : m (a + 1 + length (text n m (a + 1))) ≡ 0 =
        ap m (omega arith) ∙ (ap (λ xs. m (a + length xs)) (sym step) ∙ h) in
      subst (IsText m a) (sym step) (refl, ground arith, text-IsText n m (a + 1) rest)
]

-- All the characters, one after another.
unfoldable pub emit {ℓ} : {S : Type ℓ} → Putc S → List ℕ → S → Option S
emit putc [] s = some s
emit putc (c ∷ cs) s = do s' ← putc c s; emit putc cs s'

pub emit-append {ℓ} :
    {S : Type ℓ} (putc : Putc S) (xs ys : List ℕ) (s : S)
    → emit putc (xs ++ ys) s ≡ (emit putc xs s >>= emit putc ys)
unfolding emit
emit-append putc [] ys s = refl
emit-append putc (x ∷ xs) ys s = elim (Option-cases (putc x s)) [
  | inl e ↦ rw e refl
  | inr (s', e) ↦ rw e (emit-append putc xs ys s')
]

puts_from_lem {ℓ} :
    {S : Type ℓ} (putc : Putc S) (chars : ℕ) (m : Mem) (str index : ℕ) (xs : List ℕ) (s : S)
    → IsText m (str + index) xs
    → length xs < chars
    → puts_from putc chars m str index s ≡ (emit putc xs s >>= (λ s'. some (index + length xs, s')))
unfolding puts_from emit
puts_from_lem putc zero m str index xs s t h = absurd (omega arith)
puts_from_lem putc (suc chars) m str index [] s t h = ground arith
puts_from_lem putc (suc chars) m str index (x ∷ xs) s (p, q, r) h =
    let more : (m (str + index) == 0) ≡ false = ground arith in
    let next : str + (index + 1) ≡ str + index + 1 = omega arith in
    let total : index + length (x ∷ xs) ≡ index + 1 + length xs = omega arith in
    elim (Option-cases (putc x s)) [
      | inl e ↦ rw (puts_from, more, p, e) refl
      | inr (s', e) ↦
          rw (puts_from, more, p, e, total)
            (puts_from_lem putc chars m str (index + 1) xs s' (rw next r) (omega arith))
    ]

-- puts writes the characters of the string, and gives their number.
pub puts-emit {ℓ} :
    {S : Type ℓ} (putc : Putc S) (chars : ℕ) (m : Mem) (str : ℕ) (xs : List ℕ) (s : S)
    → IsText m str xs
    → length xs < chars
    → puts_from putc chars m str 0 s ≡ (emit putc xs s >>= (λ s'. some (length xs, s')))
puts-emit putc chars m str xs s t h =
    let here : str + 0 ≡ str = omega arith in
    let total : 0 + length xs ≡ length xs = omega arith in
    puts_from_lem putc chars m str 0 xs s (rw here t) h ∙ rw total refl
