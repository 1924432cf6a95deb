-- ===== src/Emulation/Arguments.antt =====
-- ece391_getargs of ece391emulate.c joins the arguments.
use mathlib.Core.List.{append-nil}
use ece391_os.Common.{
  ℕ, zero, suc, ◌+◌, ◌-◌, ◌≤◌, ◌<◌, ◌≡◌, ◌⊎◌, inl, inr, refl, ◌∙◌, arith, false, subst, ◌==◌,
  le→ltb, Option, some, List, [], ◌∷◌, ◌++◌, length, length-append, ℤ, pos,
}
use ece391_os.Memory.{Mem, upd}
use ece391_os.Print.Text.{IsText, IsText-kept}
use ece391_os.User.{ece391_strcpy}
use ece391_os.User.Console.{ece391_strlen-IsText}
use ece391_os.Emulation.{end_args, getargs_from, emulated_getargs}

-- Outside `n` bytes from `a` on.
abbrev pub Outside : ℕ → ℕ → ℕ → Type 0
Outside a n b = (b < a) ⊎ (a + n ≤ b)

-- ece391_strcpy copies a text, and changes nothing outside its copy.
ece391_strcpy-IsText :
    (fuel : ℕ) (m : Mem) (dst src : ℕ) (xs : List ℕ)
    → IsText m src xs
    → length xs < fuel
    → (dst + length xs < src) ⊎ (src + length xs < dst)
    → (m' : Mem) × (ece391_strcpy fuel m dst src ≡ some m')
      × IsText m' dst xs
      × ((b : ℕ) → Outside dst (length xs + 1) b → m' b ≡ m b)
unfolding ece391_strcpy upd
ece391_strcpy-IsText zero m dst src xs t h apart = absurd (omega arith)
ece391_strcpy-IsText (suc fuel) m dst src [] t h apart = (
  upd m dst (m src),
  ground (arith, t),
  ground (arith, t),
  λ b out. elim out [ inl l ↦ ground arith | inr l ↦ ground arith ],
)
ece391_strcpy-IsText (suc fuel) m dst src (x ∷ xs) (p, q, r) h apart =
    let m1 = upd m dst (m src) in
    let more : (m src == 0) ≡ false = ground (arith, p, q) in
    let far : (dst + 1 + length xs < src + 1) ⊎ (src + 1 + length xs < dst + 1) = elim apart [
      | inl l ↦ inl (omega arith)
      | inr l ↦ inr (omega arith)
    ] in
    let kept : (b : ℕ) → src + 1 ≤ b → b ≤ src + 1 + length xs → m1 b ≡ m b =
      λ b l u. elim apart [ inl l' ↦ ground arith | inr l' ↦ ground arith ] in
    let (m', e, t, same) =
      ece391_strcpy-IsText fuel m1 (dst + 1) (src + 1) xs (IsText-kept m m1 (src + 1) xs kept r)
        (omega arith) far in
    (
      m',
      rw more e,
      (same dst (inl (omega arith)) ∙ ground (arith, p), q, t),
      λ b out. elim out [
        | inl l ↦ same b (inl (omega arith)) ∙ ground arith
        | inr l ↦ same b (inr (omega arith)) ∙ ground arith
      ],
    )

-- A text in front of another.
IsText-append :
    (m m' : Mem) (a : ℕ) (xs ys : List ℕ)
    → IsText m a xs
    → ((b : ℕ) → a ≤ b → b < a + length xs → m' b ≡ m b)
    → IsText m' (a + length xs) ys
    → IsText m' a (xs ++ ys)
IsText-append m m' a [] ys t kept u = let here : a + 0 ≡ a = omega arith in rw here at u
IsText-append m m' a (x ∷ xs) ys (p, q, r) kept u =
    let here : a + suc (length xs) ≡ a + 1 + length xs = omega arith in
    (
      kept a (omega arith) (omega arith) ∙ p,
      q,
      IsText-append m m' (a + 1) xs ys r (λ b l h. kept b (omega arith) (omega arith))
          (rw here at u),
    )

-- The arguments with a space between them.
abbrev pub joined : List (List ℕ) → List ℕ
joined [] = []
joined (xs ∷ []) = xs
joined (xs ∷ ys ∷ texts) = xs ++ (32 ∷ joined (ys ∷ texts))

-- The texts stand at the addresses, apart from `n` bytes at `buf` and the one behind them.
abbrev pub AreArguments : ℕ → Mem → ℕ → ℕ → List ℕ → List (List ℕ) → Type 0
AreArguments chars m buf n [] [] = Unit {0}
AreArguments chars m buf n (a ∷ args) (xs ∷ texts) =
    IsText m a xs
    × (length xs < chars)
    × ((a + length xs < buf) ⊎ (buf + n < a))
    × AreArguments chars m buf n args texts
AreArguments chars m buf n args texts = ⊥

AreArguments-kept :
    (chars : ℕ) (m m' : Mem) (buf n buf' n' : ℕ) (args : List ℕ) (texts : List (List ℕ))
    → buf ≤ buf'
    → buf' + n' ≤ buf + n
    → ((b : ℕ) → (b < buf) ⊎ (buf + n < b) → m' b ≡ m b)
    → AreArguments chars m buf n args texts
    → AreArguments chars m' buf' n' args texts
AreArguments-kept chars m m' buf n buf' n' [] [] l h kept t = tt
AreArguments-kept chars m m' buf n buf' n' [] (xs ∷ texts) l h kept t = absurd t
AreArguments-kept chars m m' buf n buf' n' (a ∷ args) [] l h kept t = absurd t
AreArguments-kept chars m m' buf n buf' n' (a ∷ args) (xs ∷ texts) l h kept
      (t, short, apart, rest) =
    (
      IsText-kept m m' a xs
          (λ b low high.
            kept b (elim apart [ inl o ↦ inl (omega arith) | inr o ↦ inr (omega arith) ]))
          t,
      short,
      elim apart [ inl o ↦ inl (omega arith) | inr o ↦ inr (omega arith) ],
      AreArguments-kept chars m m' buf n buf' n' args texts l h kept rest,
    )

-- The joined text is in the array, and nothing outside the array has changed.
abbrev pub HasJoined : Mem → ℕ → ℕ → List ℕ → Option (ℤ × Mem) → Type 0
HasJoined m buf nbytes xs x =
    (m' : Mem) × (x ≡ some (pos 0, m'))
    × IsText m' buf xs
    × ((b : ℕ) → Outside buf nbytes b → m' b ≡ m b)

-- The step for one argument: its copy.
copied_argument :
    (chars : ℕ) (m : Mem) (buf nbytes a : ℕ) (xs : List ℕ)
    → IsText m a xs
    → length xs < chars
    → (a + length xs < buf) ⊎ (buf + nbytes < a)
    → length xs ≤ nbytes
    → (m' : Mem) × (ece391_strcpy chars m buf a ≡ some m')
      × IsText m' buf xs
      × ((b : ℕ) → Outside buf (length xs + 1) b → m' b ≡ m b)
copied_argument chars m buf nbytes a xs t short apart h =
    ece391_strcpy-IsText chars m buf a xs t short
      (elim apart [ inl o ↦ inr (omega arith) | inr o ↦ inl (omega arith) ])

getargs_from-joined :
    (chars : ℕ) (args : List ℕ) (texts : List (List ℕ)) (m : Mem) (buf nbytes : ℕ)
    → AreArguments chars m buf nbytes args texts
    → length (joined texts) < nbytes
    → HasJoined m buf nbytes (joined texts) (getargs_from chars args m buf nbytes)
unfolding getargs_from end_args upd
getargs_from-joined chars [] [] m buf nbytes t h = (
  upd m buf 0,
  ground arith,
  ground arith,
  λ b out. elim out [ inl o ↦ ground arith | inr o ↦ ground arith ],
)
getargs_from-joined chars [] (xs ∷ texts) m buf nbytes t h = absurd t
getargs_from-joined chars (a ∷ args) [] m buf nbytes t h = absurd t
getargs_from-joined chars (a ∷ []) (xs ∷ []) m buf nbytes (t, short, apart, rest) h =
    let (m1, e, t1, same) = copied_argument chars m buf nbytes a xs t short apart (omega arith) in
    let m' = upd m1 (buf + length xs) 0 in
    (
      m',
      rw
          (
            ece391_strlen-IsText chars m a xs t short,
            le→ltb nbytes (length xs) (omega arith),
            e,
            le→ltb (nbytes - length xs) 1 (omega arith),
          )
          refl,
      subst (IsText m' buf) (append-nil xs)
          (IsText-append m1 m' buf xs [] t1 (λ b l u. ground arith) (ground arith)),
      λ b out. elim out [
        | inl o ↦ let p : m' b ≡ m1 b = ground arith in p ∙ same b (inl o)
        | inr o ↦ let p : m' b ≡ m1 b = ground arith in p ∙ same b (inr (omega arith))
      ],
    )
getargs_from-joined chars (a ∷ []) (xs ∷ ys ∷ texts) m buf nbytes (t, short, apart, rest) h =
    absurd rest
getargs_from-joined chars (a ∷ a' ∷ args) (xs ∷ []) m buf nbytes (t, short, apart, rest) h =
    absurd rest
getargs_from-joined chars (a ∷ a' ∷ args) (xs ∷ ys ∷ texts) m buf nbytes (t, short, apart, rest) h =
    let long = length-append xs (32 ∷ joined (ys ∷ texts)) in
    let (m1, e, t1, same) =
      copied_argument chars m buf nbytes a xs t short apart (omega (arith, long)) in
    let m2 = upd m1 (buf + length xs) 32 in
    let kept : (b : ℕ) → Outside buf nbytes b → m2 b ≡ m b = λ b out. elim out [
      | inl o ↦ let p : m2 b ≡ m1 b = ground arith in p ∙ same b (inl o)
      | inr o ↦ let p : m2 b ≡ m1 b = ground (arith, long) in p ∙ same b (inr (omega (arith, long)))
    ] in
    let (m', e', t', same') =
      getargs_from-joined chars (a' ∷ args) (ys ∷ texts) m2 (buf + length xs + 1)
        (nbytes - length xs - 1)
        (AreArguments-kept chars m m2 buf nbytes (buf + length xs + 1) (nbytes - length xs - 1)
          (a' ∷ args) (ys ∷ texts) (omega arith) (omega (arith, long))
          (λ b out. kept b (elim out [ inl o ↦ inl o | inr o ↦ inr (omega arith) ])) rest)
        (omega (arith, long)) in
    (
      m',
      rw
          (
            ece391_strlen-IsText chars m a xs t short,
            le→ltb nbytes (length xs) (omega (arith, long)),
            e,
            le→ltb (nbytes - length xs) 1 (omega (arith, long)),
          )
          e',
      IsText-append m1 m' buf xs (32 ∷ joined (ys ∷ texts)) t1
          (λ b l u. same' b (inl (omega arith)) ∙ ground arith)
          (same' (buf + length xs) (inl (omega arith)) ∙ ground arith, omega arith, t'),
      λ b out. elim out [
        | inl o ↦ same' b (inl (omega arith)) ∙ kept b (inl o)
        | inr o ↦ same' b (inr (omega (arith, long))) ∙ kept b (inr o)
      ],
    )

-- For arguments that are texts apart from the array, ece391_getargs puts them there with one space
-- between each two, ends the string with a NUL, gives 0, and changes nothing outside the array. The
-- joined text is shorter than the array, and the bound of characters is above each argument.
pub emulated_getargs-joined :
    (chars : ℕ) (args : List ℕ) (texts : List (List ℕ)) (m : Mem) (buf nbytes : ℕ)
    → AreArguments chars m buf nbytes args texts
    → length (joined texts) < nbytes
    → HasJoined m buf nbytes (joined texts) (emulated_getargs chars args m buf nbytes)
unfolding emulated_getargs
emulated_getargs-joined chars args texts m buf nbytes t h =
    getargs_from-joined chars args texts m buf nbytes t h
