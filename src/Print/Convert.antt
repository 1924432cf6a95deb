-- ===== src/Print/Convert.antt =====
-- A single specifier of printf (lib.c) writes its text.
use ece391_os.Common.{
  ℕ, ◌+◌, ◌-◌, ◌%◌, ◌≤◌, ◌<◌, ◌≡◌, ◌⊎◌, inl, inr, refl, sym, ◌∙◌, subst, arith, true, false,
  Bool-cases, Option-cases, ◌==◌, ltb, leb, ◌&&◌, ◌||◌, Option, none, some, List, [], ◌∷◌, length,
  ◌>>=◌,
}
use ece391_os.Memory.{Mem}
use ece391_os.CString.Length.{text, length-text}
use ece391_os.Print.{Putc, puts_from, conversion}
use ece391_os.Print.Text.{IsText, IsText-kept, text-IsText, emit, puts-emit}
use ece391_os.Print.Numbers.{argument_text, number_string-argument_text}
use ece391_os.Print.Format.{string_text, spec_text, AreWords, Agree}

string_text-IsText :
    (chars conv : ℕ) (m : Mem) (a : ℕ) (xs : List ℕ)
    → string_text chars conv m a ≡ some xs
    → IsText m a xs × ((a + length xs < conv) ⊎ (conv + 64 ≤ a)) × (length xs ≤ chars - 1)
unfolding string_text
string_text-IsText chars conv m a xs e =
    let t = text (chars - 1) m a in
    elim (Bool-cases (m (a + length t) == 0 && (ltb (a + length t) conv || leb (conv + 64) a))) [
      | inl y ↦
          let same : t ≡ xs = ground (arith, e, y) in
          subst
            (λ us.
              IsText m a us × ((a + length us < conv) ⊎ (conv + 64 ≤ a)) × (length us ≤ chars - 1))
            same
            (
              text-IsText (chars - 1) m a (ground (arith, y)),
              ground (arith, y),
              length-text (chars - 1) m a,
            )
      | inr n ↦ ground (arith, e, n)
    ]

-- The text of an argument, wherever its memory has it.
pub string_kept :
    (m0 m : Mem) (conv a : ℕ) (xs : List ℕ)
    → Agree m0 m conv
    → (a + length xs < conv) ⊎ (conv + 64 ≤ a)
    → IsText m0 a xs
    → IsText m a xs
string_kept m0 m conv a xs g o t = IsText-kept m0 m a xs (λ b l u. g b (omega arith)) t

-- What a conversion does, given its text and the arguments left.
abbrev pub Converted {ℓ} :
    {S : Type ℓ} → Putc S → ℕ → ℕ → Mem → Mem → ℕ → ℕ → List ℕ → List ℕ × List ℕ → Type ℓ
Converted {S} putc chars conv m0 m c alternate args done =
    AreWords done.1
    × (m' : Mem) × Agree m0 m' conv
    × ((s : S)
        → conversion putc chars conv c alternate args m s
          ≡ (emit putc done.0 s >>= (λ s'. some (done.1, m', s'))))

pub some_case {ℓ κ} : {A : Type ℓ} (P : A → Type κ) (a b : A) → some a ≡ some b → P a → P b
some_case P a b e p = subst P (cc) p

pub emit_one {ℓ κ} :
    {S : Type ℓ} {B : Type κ} (putc : Putc S) (c : ℕ) (s : S) (f : S → Option B)
    → (emit putc (c ∷ []) s >>= f) ≡ (putc c s >>= f)
unfolding emit
emit_one putc c s f = elim (Option-cases (putc c s)) [ inl e ↦ rw e refl | inr (s', e) ↦ rw e refl ]

puts_then {ℓ κ} :
    {S : Type ℓ} {B : Type κ} (putc : Putc S) (chars : ℕ) (m : Mem) (str : ℕ) (xs : List ℕ) (s : S)
    (f : S → Option B)
    → IsText m str xs
    → length xs < chars
    → (puts_from putc chars m str 0 s >>= (λ out. f out.1)) ≡ (emit putc xs s >>= f)
puts_then putc chars m str xs s f t h = elim (Option-cases (emit putc xs s)) [
  | inl e ↦ rw (puts-emit putc chars m str xs s t h, e) refl
  | inr (s', e) ↦ rw (puts-emit putc chars m str xs s t h, e) refl
]

module _ {ℓ} {S : Type ℓ} (putc : Putc S) (chars conv : ℕ) (m0 m : Mem) (c alternate : ℕ)
    (h : 34 ≤ chars) (g : Agree m0 m conv) where
  convert_percent :
      (args : List ℕ) (done : List ℕ × List ℕ)
      → AreWords args
      → (c == b'%') ≡ true
      → spec_text chars conv m0 c alternate args ≡ some done
      → Converted putc chars conv m0 m c alternate args done
  unfolding conversion spec_text
  convert_percent [] done w y e =
      some_case (Converted putc chars conv m0 m c alternate []) (b'%' ∷ [], []) done (rw y at e)
        (tt, m, g, λ s. rw (conversion, y) (sym (emit_one putc b'%' s _)))
  convert_percent (v ∷ args) done w y e =
      some_case (Converted putc chars conv m0 m c alternate (v ∷ args)) (b'%' ∷ [], v ∷ args) done
        (rw y at e) (w, m, g, λ s. rw (conversion, y) (sym (emit_one putc b'%' s _)))

  convert_rest :
      (done : List ℕ × List ℕ)
      → (c == b'%') ≡ false
      → spec_text chars conv m0 c alternate [] ≡ some done
      → Converted putc chars conv m0 m c alternate [] done
  unfolding conversion spec_text emit
  convert_rest done n e =
      elim (Bool-cases (c == b'x' || c == b'u' || c == b'd' || c == b'c' || c == b's')) [
        | inl y ↦ let e' : none ≡ some done = rw (n, y) at e in cc
        | inr o ↦
            some_case (Converted putc chars conv m0 m c alternate []) ([], []) done (rw (n, o) at e)
              (tt, m, g, λ s. rw (conversion, n, o) refl)
      ]

  module _ (v : ℕ) (args : List ℕ) (done : List ℕ × List ℕ) (w : AreWords (v ∷ args))
      (n : (c == b'%') ≡ false)
      (e : spec_text chars conv m0 c alternate (v ∷ args) ≡ some done) where
    convert_number :
        (c == b'x' || c == b'u' || c == b'd') ≡ true
        → Converted putc chars conv m0 m c alternate (v ∷ args) done
    unfolding conversion spec_text
    convert_number y =
        let (m', str, eq, held) = number_string-argument_text m conv c alternate v w.0 in
        some_case (Converted putc chars conv m0 m c alternate (v ∷ args))
          (argument_text c alternate v, args) done (rw (n, y) at e)
          (
            w.1,
            m',
            λ b o. held.outside b o ∙ g b o,
            λ s.
                rw (conversion, n, y, eq)
                  (puts_then putc chars m' str (argument_text c alternate v) s _ held.written
                    (omega (arith, held.short))),
          )

    convert_other :
        (c == b'x' || c == b'u' || c == b'd') ≡ false
        → Converted putc chars conv m0 m c alternate (v ∷ args) done
    unfolding conversion spec_text emit
    convert_other x = elim (Bool-cases (c == b'c')) [
      | inl y ↦
          some_case (Converted putc chars conv m0 m c alternate (v ∷ args)) ((v % 256) ∷ [], args)
            done (rw (n, x, y) at e)
            (w.1, m, g, λ s. rw (conversion, n, x, y) (sym (emit_one putc (v % 256) s _)))
      | inr z ↦ elim (Bool-cases (c == b's')) [
        | inl y ↦ elim (Option-cases (string_text chars conv m0 v)) [
          | inl nothing ↦ let e' : none ≡ some done = rw (n, x, z, y, nothing) at e in cc
          | inr (xs, found) ↦
              let (t, o, short) = string_text-IsText chars conv m0 v xs found in
              some_case (Converted putc chars conv m0 m c alternate (v ∷ args)) (xs, args) done
                (rw (n, x, z, y, found) at e)
                (
                  w.1,
                  m,
                  g,
                  λ s.
                      rw (conversion, n, x, z, y)
                        (puts_then putc chars m v xs s _ (string_kept m0 m conv v xs g o t)
                          (omega arith)),
                )
        ]
        | inr o ↦
            some_case (Converted putc chars conv m0 m c alternate (v ∷ args)) ([], v ∷ args) done
              (rw (n, x, z, o) at e) (w, m, g, λ s. rw (conversion, n, x, z, o) refl)
      ]
    ]

  pub conversion-spec_text :
      (args : List ℕ) (done : List ℕ × List ℕ)
      → AreWords args
      → spec_text chars conv m0 c alternate args ≡ some done
      → Converted putc chars conv m0 m c alternate args done
  conversion-spec_text args done w e = elim (Bool-cases (c == b'%')) [
    | inl y ↦ convert_percent args done w y e
    | inr n ↦ no_percent args w e n
  ]
    where
      no_percent :
          (vs : List ℕ)
          → AreWords vs
          → spec_text chars conv m0 c alternate vs ≡ some done
          → (c == b'%') ≡ false
          → Converted putc chars conv m0 m c alternate vs done
      no_percent [] w' e' n = convert_rest done n e'
      no_percent (v ∷ vs) w' e' n = elim (Bool-cases (c == b'x' || c == b'u' || c == b'd')) [
        | inl y ↦ convert_number v vs done w' n e' y
        | inr o ↦ convert_other v vs done w' n e' o
      ]
