-- ===== src/Print/Keep.antt =====
-- What putc keeps, printf (lib.c) keeps.
use ece391_os.Common.{
  ℕ, zero, suc, ◌+◌, ◌%◌, ◌==◌, ◌||◌, Bool-cases, inl, inr, Option-cases, some, List, [], ◌∷◌,
  ◌>>=◌, Holds, Holds-bind,
}
use ece391_os.Memory.{Mem}
use ece391_os.Print.{Putc, puts_from, number_string, conversion, skip_flags, printf_from, printf}

module _ {ℓ κ} {S : Type ℓ} (P : S → Type κ) (putc : Putc S)
    (h : (c : ℕ) (s : S) → P s → Holds P (putc c s)) where
  puts_keeps :
      (chars : ℕ) (m : Mem) (str i : ℕ) (s : S)
      → P s
      → Holds (λ (o : ℕ × S). P o.1) (puts_from putc chars m str i s)
  unfolding puts_from
  puts_keeps zero m str i s p = tt
  puts_keeps (suc chars) m str i s p = elim (Bool-cases (m (str + i) == 0)) [
    | inl y ↦ rw (puts_from, y) p
    | inr y ↦
        rw (puts_from, y)
          (Holds-bind P _ (putc (m (str + i)) s) _ (h (m (str + i)) s p)
            (λ s' q. puts_keeps chars m str (i + 1) s' q))
  ]

  char_keeps :
      (c : ℕ) (args : List ℕ) (m : Mem) (s : S)
      → P s
      → Holds (λ (o : List ℕ × Mem × S). P o.2) (putc c s >>= (λ s'. some (args, m, s')))
  char_keeps c args m s p = Holds-bind P _ (putc c s) _ (h c s p) (λ s' q. q)

  string_keeps :
      (chars str : ℕ) (args : List ℕ) (m : Mem) (s : S)
      → P s
      → Holds
          (λ (o : List ℕ × Mem × S). P o.2)
          (puts_from putc chars m str 0 s >>= (λ o. some (args, m, o.1)))
  string_keeps chars str args m s p =
      Holds-bind (λ (o : ℕ × S). P o.1) _ (puts_from putc chars m str 0 s) _
        (puts_keeps chars m str 0 s p) (λ o q. q)

  conversion_keeps :
      (chars conv c alternate : ℕ) (args : List ℕ) (m : Mem) (s : S)
      → P s
      → Holds (λ (o : List ℕ × Mem × S). P o.2) (conversion putc chars conv c alternate args m s)
  unfolding conversion
  conversion_keeps chars conv c alternate [] m s p = elim (Bool-cases (c == b'%')) [
    | inl y ↦ rw y (char_keeps b'%' [] m s p)
    | inr y ↦ elim (Bool-cases (c == b'x' || c == b'u' || c == b'd' || c == b'c' || c == b's')) [
      | inl z ↦ rw (y, z) tt
      | inr z ↦ rw (y, z) p
    ]
  ]
  conversion_keeps chars conv c alternate (v ∷ args) m s p = elim (Bool-cases (c == b'%')) [
    | inl y ↦ rw y (char_keeps b'%' (v ∷ args) m s p)
    | inr y ↦ elim (Bool-cases (c == b'x' || c == b'u' || c == b'd')) [
      | inl z ↦ elim (Option-cases (number_string conv c alternate v m)) [
        | inl n ↦ rw (y, z, n) tt
        | inr (number, n) ↦
            rw (y, z, n)
              (Holds-bind (λ (o : ℕ × S). P o.1) _ (puts_from putc chars number.0 number.1 0 s) _
                (puts_keeps chars number.0 number.1 0 s p) (λ o q. q))
      ]
      | inr z ↦ elim (Bool-cases (c == b'c')) [
        | inl w ↦ rw (y, z, w) (char_keeps (v % 256) args m s p)
        | inr w ↦ elim (Bool-cases (c == b's')) [
          | inl x ↦ rw (y, z, w, x) (string_keeps chars v args m s p)
          | inr x ↦ rw (y, z, w, x) p
        ]
      ]
    ]
  ]

  printf_from_keeps :
      (fuel chars conv format buf : ℕ) (args : List ℕ) (m : Mem) (s : S)
      → P s
      → Holds (λ (o : ℕ × Mem × S). P o.2) (printf_from putc fuel chars conv format buf args m s)
  unfolding printf_from
  printf_from_keeps zero chars conv format buf args m s p = tt
  printf_from_keeps (suc fuel) chars conv format buf args m s p = elim (Bool-cases (m buf == 0)) [
    | inl y ↦ rw (printf_from, y) p
    | inr y ↦ elim (Bool-cases (m buf == b'%')) [
      | inl z ↦ elim (Option-cases (skip_flags (suc fuel) m (buf + 1) 0)) [
        | inl n ↦ rw (printf_from, y, z, n) tt
        | inr (spec, n) ↦
            rw (printf_from, y, z, n)
              (Holds-bind (λ (o : List ℕ × Mem × S). P o.2) _
                (conversion putc chars conv (m spec.0) spec.1 args m s) _
                (conversion_keeps chars conv (m spec.0) spec.1 args m s p)
                (λ o q. printf_from_keeps fuel chars conv format (spec.0 + 1) o.0 o.1 o.2 q))
      ]
      | inr z ↦
          rw (printf_from, y, z)
            (Holds-bind P _ (putc (m buf) s) _ (h (m buf) s p)
              (λ s' q. printf_from_keeps fuel chars conv format (buf + 1) args m s' q))
    ]
  ]

  -- What putc keeps of the state, printf keeps.
  pub printf_keeps :
      (fuel chars conv format : ℕ) (args : List ℕ) (m : Mem) (s : S)
      → P s
      → Holds (λ (o : ℕ × Mem × S). P o.2) (printf putc fuel chars conv format args m s)
  unfolding printf
  printf_keeps fuel chars conv format args m s p =
      printf_from_keeps fuel chars conv format format args m s p
