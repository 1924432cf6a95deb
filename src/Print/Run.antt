-- ===== src/Print/Run.antt =====
-- printf (lib.c) writes the rendered format.
use ece391_os.Common.{
  ℕ, zero, suc, ◌+◌, ◌-◌, ◌≤◌, ◌<◌, ◌≡◌, ◌⊎◌, inl, inr, refl, ◌∙◌, subst, arith, false, Bool-cases,
  Option-cases, ◌==◌, Option, none, some, List, [], ◌∷◌, ◌++◌, length, ◌>>=◌,
}
use ece391_os.Memory.{Mem}
use ece391_os.Print.{Putc, skip_flags, printf_from, printf}
use ece391_os.Print.Text.{IsText, emit, emit-append}
use ece391_os.Print.Format.{spec_text, render, AreWords, Agree}
use ece391_os.Print.Convert.{string_kept, some_case, conversion-spec_text}

-- A specifier from `cs` on, past its flags: where its character is, and what follows.
record Skipped (chars conv : ℕ) (m0 m : Mem) (fuel buf alternate : ℕ) (cs args out : List ℕ)
    : Type 0 where
  place : ℕ
  flag : ℕ
  char : ℕ
  rest : List ℕ
  more : List ℕ
  done : List ℕ × List ℕ
  skips : skip_flags fuel m buf alternate ≡ some (place, flag)
  here : m place ≡ char
  follows : IsText m0 (place + 1) rest
  position : place + 1 + length rest ≡ buf + length cs
  shorter : length rest < length cs
  specified : spec_text chars conv m0 char flag args ≡ some done
  rendered : render chars conv m0 none rest done.1 ≡ some more
  whole : done.0 ++ more ≡ out

-- The two results behind one of the specification.
render_parts :
    (chars conv : ℕ) (m0 : Mem) (c alternate : ℕ) (cs args out : List ℕ)
    → (c == b'#') ≡ false
    → render chars conv m0 (some alternate) (c ∷ cs) args ≡ some out
    → (done : List ℕ × List ℕ) × (more : List ℕ) × (spec_text chars conv m0 c alternate args
        ≡ some done)
      × (render chars conv m0 none cs done.1 ≡ some more)
      × (done.0 ++ more ≡ out)
unfolding render
render_parts chars conv m0 c alternate cs args out n e =
    elim (Option-cases (spec_text chars conv m0 c alternate args)) [
      | inl x ↦ let e' : none ≡ some out = rw (n, x) at e in cc
      | inr (done, x) ↦ elim (Option-cases (render chars conv m0 none cs done.1)) [
        | inl y ↦ let e' : none ≡ some out = rw (n, x, y) at e in cc
        | inr (more, y) ↦
            let e' : some (done.0 ++ more) ≡ some out = rw (n, x, y) at e in (done, more, x, y, cc)
      ]
    ]

skip_flags-Skipped :
    (chars conv : ℕ) (m0 m : Mem) (fuel buf alternate : ℕ) (cs args out : List ℕ)
    → Agree m0 m conv
    → (buf + length cs < conv) ⊎ (conv + 64 ≤ buf)
    → IsText m0 buf cs
    → length cs < fuel
    → render chars conv m0 (some alternate) cs args ≡ some out
    → Skipped chars conv m0 m fuel buf alternate cs args out
unfolding skip_flags render
skip_flags-Skipped chars conv m0 m zero buf alternate cs args out g o t h e = absurd (omega arith)
skip_flags-Skipped chars conv m0 m (suc fuel) buf alternate [] args out g o t h e = absurd (cc)
skip_flags-Skipped chars conv m0 m (suc fuel) buf alternate (c ∷ cs) args out g o (p, q, r) h e =
    let same : m buf ≡ c = g buf (omega arith) ∙ p in
    elim (Bool-cases (c == b'#')) [
      | inl y ↦
          let e' : render chars conv m0 (some 1) cs args ≡ some out = rw y at e in
          let rest =
            skip_flags-Skipped chars conv m0 m fuel (buf + 1) 1 cs args out g (omega arith) r
              (omega arith) e' in
          record {
            place = rest.place;
            flag = rest.flag;
            char = rest.char;
            rest = rest.rest;
            more = rest.more;
            done = rest.done;
            skips = rw (same, y) rest.skips;
            here = rest.here;
            follows = rest.follows;
            position = omega (arith, rest.position);
            shorter = omega (arith, rest.shorter);
            specified = rest.specified;
            rendered = rest.rendered;
            whole = rest.whole;
          }
      | inr n ↦
          let (done, more, x, z, w) = render_parts chars conv m0 c alternate cs args out n e in
          record {
            place = buf;
            flag = alternate;
            char = c;
            rest = cs;
            more = more;
            done = done;
            skips = rw (same, n) refl;
            here = same;
            follows = r;
            position = omega arith;
            shorter = omega arith;
            specified = x;
            rendered = z;
            whole = w;
          }
    ]

abbrev with_state {ℓ α β} : {S : Type ℓ} {A : Type α} {M : Type β} → A → M → S → Option (A × M × S)
with_state a b s = some (a, b, s)

-- The output of two parts, with a result `(a, b)` between them.
emit_parts {ℓ κ α β} :
    {S : Type ℓ} {B : Type κ} {A : Type α} {M : Type β} (putc : Putc S) (xs ys out : List ℕ) (s : S)
    (f : A → M → S → Option B) (g : S → Option B) (a : A) (b : M)
    → xs ++ ys ≡ out
    → ((s' : S) → f a b s' ≡ (emit putc ys s' >>= g))
    → (emit putc xs s >>= with_state a b >>= (λ r. f r.0 r.1 r.2)) ≡ (emit putc out s >>= g)
emit_parts putc xs ys out s f g a b whole h =
    subst
      (λ zs. (emit putc xs s >>= with_state a b >>= (λ r. f r.0 r.1 r.2)) ≡ (emit putc zs s >>= g))
      whole
      (elim (Option-cases (emit putc xs s)) [
        | inl e ↦ rw (emit-append putc xs ys s, e) refl
        | inr (s', e) ↦ rw (emit-append putc xs ys s, e) (h s')
      ])

-- The output of a character and of what follows it.
emit_char {ℓ κ} :
    {S : Type ℓ} {B : Type κ} (putc : Putc S) (c : ℕ) (ys out : List ℕ) (s : S) (f g : S → Option B)
    → c ∷ ys ≡ out
    → ((s' : S) → f s' ≡ (emit putc ys s' >>= g))
    → (putc c s >>= f) ≡ (emit putc out s >>= g)
unfolding emit
emit_char putc c ys out s f g whole h =
    subst (λ zs. (putc c s >>= f) ≡ (emit putc zs s >>= g)) whole
      (elim (Option-cases (putc c s)) [ inl e ↦ rw e refl | inr (s', e) ↦ rw e (h s') ])

plain_parts :
    (chars conv : ℕ) (m0 : Mem) (c : ℕ) (cs args out : List ℕ)
    → (c == b'%') ≡ false
    → render chars conv m0 none (c ∷ cs) args ≡ some out
    → (more : List ℕ) × (render chars conv m0 none cs args ≡ some more) × (c ∷ more ≡ out)
unfolding render
plain_parts chars conv m0 c cs args out n e =
    elim (Option-cases (render chars conv m0 none cs args)) [
      | inl x ↦ let e' : none ≡ some out = rw (n, x) at e in cc
      | inr (more, x) ↦ let e' : some (c ∷ more) ≡ some out = rw (n, x) at e in (more, x, cc)
    ]

-- What the loop at `buf` does, for the rest of the format and its output.
abbrev Printed {ℓ} :
    {S : Type ℓ} → Putc S → ℕ → ℕ → ℕ → Mem → ℕ → ℕ → Mem → List ℕ → List ℕ → ℕ → Type ℓ
Printed {S} putc fuel chars conv m0 format buf m args out end =
    (m' : Mem) × Agree m0 m' conv
    × ((s : S)
        → printf_from putc fuel chars conv format buf args m s
          ≡ (emit putc out s >>= (λ s'. some (end - format, m', s'))))

ends_at {ℓ} :
    {S : Type ℓ} (putc : Putc S) (fuel chars conv : ℕ) (m0 : Mem) (format buf : ℕ) (m : Mem)
    (args out : List ℕ) (end end' : ℕ)
    → end ≡ end'
    → Printed putc fuel chars conv m0 format buf m args out end
    → Printed putc fuel chars conv m0 format buf m args out end'
ends_at putc fuel chars conv m0 format buf m args out end end' e p =
    subst (λ n. Printed putc fuel chars conv m0 format buf m args out n) e p

printf_end {ℓ} :
    {S : Type ℓ} (putc : Putc S) (fuel chars conv format buf : ℕ) (args : List ℕ) (m : Mem)
    → m buf ≡ 0
    → (s : S)
    → printf_from putc (suc fuel) chars conv format buf args m s
      ≡ (emit putc [] s >>= (λ s'. some (buf + 0 - format, m, s')))
unfolding printf_from emit
printf_end putc fuel chars conv format buf args m end s =
    let here : buf + 0 ≡ buf = omega arith in rw (printf_from, end, here) refl

module _ {ℓ} {S : Type ℓ} (putc : Putc S) (chars conv : ℕ) (m0 : Mem) (format : ℕ)
    (h : 34 ≤ chars) where
  printf_from-Printed :
      (fuel buf : ℕ) (m : Mem) (cs args out : List ℕ)
      → Agree m0 m conv
      → (buf + length cs < conv) ⊎ (conv + 64 ≤ buf)
      → IsText m0 buf cs
      → length cs < fuel
      → AreWords args
      → render chars conv m0 none cs args ≡ some out
      → Printed putc fuel chars conv m0 format buf m args out (buf + length cs)
  unfolding printf_from render
  printf_from-Printed zero buf m cs args out g o t l w e = absurd (omega arith)
  printf_from-Printed (suc fuel) buf m [] args out g o t l w e =
      let end : m buf ≡ 0 = string_kept m0 m conv buf [] g o t in
      some_case (λ out. Printed putc (suc fuel) chars conv m0 format buf m args out (buf + 0)) []
        out e (m, g, printf_end putc fuel chars conv format buf args m end)
  printf_from-Printed (suc fuel) buf m (c ∷ cs) args out g o (p, q, r) l w e =
      let same : m buf ≡ c = g buf (omega arith) ∙ p in
      let more : (c == 0) ≡ false = ground arith in
      elim (Bool-cases (c == b'%')) [
        | inl y ↦
            let k =
              skip_flags-Skipped chars conv m0 m (suc fuel) (buf + 1) 0 cs args out g (omega arith)
                r (omega arith) (rw y at e) in
            let (w1, m1, g1, runs) =
              conversion-spec_text putc chars conv m0 m k.char k.flag h g args k.done w
                k.specified in
            let (m2, g2, loops) =
              ends_at putc fuel chars conv m0 format (k.place + 1) m1 k.done.1 k.more _
                (buf + suc (length cs)) (omega (arith, k.position))
                (printf_from-Printed fuel (k.place + 1) m1 k.rest k.done.1 k.more g1
                  (omega (arith, k.position, k.shorter)) k.follows (omega (arith, k.shorter)) w1
                  k.rendered) in
            (
              m2,
              g2,
              λ s.
                  rw (printf_from, same, more, y, k.skips, k.here, runs s)
                    (emit_parts putc k.done.0 k.more out s
                      (λ args' m' s'.
                        printf_from putc fuel chars conv format (k.place + 1) args' m' s')
                      (λ s'. some (buf + suc (length cs) - format, m2, s')) k.done.1 m1 k.whole
                      loops),
            )
        | inr n ↦
            let (more_out, z, whole) = plain_parts chars conv m0 c cs args out n e in
            let (m1, g1, loops) =
              ends_at putc fuel chars conv m0 format (buf + 1) m args more_out _
                (buf + suc (length cs)) (omega arith)
                (printf_from-Printed fuel (buf + 1) m cs args more_out g (omega arith) r
                  (omega arith) w z) in
            (
              m1,
              g1,
              λ s.
                  rw (printf_from, same, more, n)
                    (emit_char putc c more_out out s
                      (λ s'. printf_from putc fuel chars conv format (buf + 1) args m s')
                      (λ s'. some (buf + suc (length cs) - format, m1, s')) whole loops),
            )
      ]

-- For a format `cs` that has a rendering (no specifier ends it, the arguments are enough, and its
-- strings are of less than `chars` characters and apart from the local buffer), printf writes just
-- that, character by character and whatever putc does, gives the length of the format, and changes
-- no memory but the buffer. The format is apart from the buffer too, the arguments are words, and the
-- bounds are more than its length and at least 34.
pub printf-render {ℓ} :
    {S : Type ℓ} (putc : Putc S) (fuel chars conv : ℕ) (m : Mem) (format : ℕ) (cs args out : List ℕ)
    → 34 ≤ chars
    → (format + length cs < conv) ⊎ (conv + 64 ≤ format)
    → IsText m format cs
    → length cs < fuel
    → AreWords args
    → render chars conv m none cs args ≡ some out
    → (m' : Mem) × Agree m m' conv
      × ((s : S)
          → printf putc fuel chars conv format args m s
            ≡ (emit putc out s >>= (λ s'. some (length cs, m', s'))))
unfolding printf
printf-render putc fuel chars conv m format cs args out h o t l w e =
    let (m', g, runs) =
      printf_from-Printed putc chars conv m format h fuel format m cs args out (λ b q. refl) o t l w
        e in
    let total : format + length cs - format ≡ length cs = omega arith in
    (m', g, λ s. runs s ∙ rw total refl)
