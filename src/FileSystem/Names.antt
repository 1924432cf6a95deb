-- ===== src/FileSystem/Names.antt =====
-- The names in the directory of the image, as read_dentry_by_name (filesys.c) compares them.
use ece391_os.Common.{
  ℕ, zero, suc, ◌+◌, ◌-◌, ◌≤◌, ◌<◌, ◌≡◌, refl, ◌∙◌, ap, arith, leb, ltb, ◌==◌, ◌&&◌, if◌then◌else◌,
  ◌∷◌, length, Bool-cases, inl, inr,
}
use ece391_os.Memory.{Mem, upd}
use ece391_os.CString.{strncpy}
use ece391_os.CString.Length.{text, EndsAt, length-text, text_bytes}
use ece391_os.CString.Copy.{Apart, strncpy_lem}
use ece391_os.CString.Compare.{AreBytes}

-- Texts of memories that agree on the bytes.
pub text-same :
    (n : ℕ) (m m' : Mem) (a a' : ℕ)
    → ((j : ℕ) → j < n → m' (a' + j) ≡ m (a + j))
    → text n m' a' ≡ text n m a
unfolding text
text-same zero m m' a a' h = refl
text-same (suc n) m m' a a' h =
    let here : m' a' ≡ m a = ap m' (omega arith) ∙ (h 0 (omega arith) ∙ ap m (omega arith)) in
    let rest =
      text-same n m m' (a + 1) (a' + 1)
        (λ j l. ap m' (omega arith) ∙ (h (suc j) (omega arith) ∙ ap m (omega arith))) in
    rw (here, rest) refl

-- A text that is padded with NULs is the same text.
text-padded :
    (n : ℕ) (m m' : Mem) (a a' : ℕ)
    → ((j : ℕ) → j < n → m' (a' + j) ≡ (if ltb j (length (text n m a)) then m (a + j) else 0))
    → text n m' a' ≡ text n m a
unfolding text
text-padded zero m m' a a' h = refl
text-padded (suc n) m m' a a' h =
    let zeroth : (a + 0 ≡ a) × (a' + 0 ≡ a') = omega arith in
    elim (Bool-cases (m a == 0)) [
      | inl y ↦
          let first : m' a' ≡ 0 = ap m' (omega arith) ∙ (h 0 (omega arith) ∙ rw y refl) in
          rw (y, first) refl
      | inr z ↦
          let first : m' a' ≡ m a =
            ap m' (omega arith) ∙ (h 0 (omega arith) ∙ rw z (ground (arith, zeroth))) in
          let rest = text-padded n m m' (a + 1) (a' + 1) (λ j l.
            let e : a + suc j ≡ a + 1 + j = omega arith in
            let e' : a' + suc j ≡ a' + 1 + j = omega arith in
            let hj : m' (a' + 1 + j)
                ≡ (if ltb (suc j) (suc (length (text n m (a + 1)))) then m (a + 1 + j) else 0) =
              rw (z, e, e') at (h (suc j) (omega arith)) in
            hj ∙ ground arith) in
          rw (first, z, rest) refl
    ]

-- curName: the name of the entry at `d`, and a NUL behind its 32 bytes.
abbrev pub copied_name : Mem → ℕ → ℕ → Mem
copied_name m cur d = upd (strncpy m cur d 32) (cur + 32) 0

pub copied_name_lem :
    (m : Mem) (cur d b : ℕ)
    → Apart cur d 32
    → copied_name m cur d b ≡ (
        if leb cur b && ltb b (cur + 33)
        then (if ltb b (cur + length (text 32 m d)) then m (d + (b - cur)) else 0)
        else m b)
unfolding upd
copied_name_lem m cur d b h = ground (arith, strncpy_lem 32 m cur d b h, length-text 32 m d)

pub text-copied_name :
    (m : Mem) (cur d : ℕ) → Apart cur d 32 → text 32 (copied_name m cur d) cur ≡ text 32 m d
text-copied_name m cur d h = text-padded 32 m (copied_name m cur d) d cur (λ j l.
    let back : cur + j - cur ≡ j = omega arith in
    copied_name_lem m cur d (cur + j) h ∙ ground (arith, back))

pub copied_name-EndsAt :
    (m : Mem) (cur d : ℕ) → Apart cur d 32 → EndsAt (copied_name m cur d) cur (length (text 32 m d))
copied_name-EndsAt m cur d h =
    let n = length (text 32 m d) in
    record {
      nul =
          let back : cur + n - cur ≡ n = omega arith in
          ground (arith, copied_name_lem m cur d (cur + n) h, length-text 32 m d);
      before = λ i l.
          let back : cur + i - cur ≡ i = omega arith in
          ground (
            arith,
            back,
            copied_name_lem m cur d (cur + i) h,
            length-text 32 m d,
            text_bytes 32 m d i l,
          );
    }

pub copied_name-AreBytes :
    (m : Mem) (cur d : ℕ) → Apart cur d 32 → AreBytes m → AreBytes (copied_name m cur d)
copied_name-AreBytes m cur d h w b =
    ground (arith, copied_name_lem m cur d b h, w (d + (b - cur)), w b)

-- A text that fits into fewer bytes is the same there.
pub text-cut :
    (n k : ℕ) (m : Mem) (a : ℕ) → length (text k m a) ≤ n → n ≤ k → text n m a ≡ text k m a
unfolding text
text-cut zero zero m a h l = refl
text-cut zero (suc k) m a h l = elim (Bool-cases (m a == 0)) [
  | inl y ↦ rw y refl
  | inr z ↦ absurd (ground (arith, z))
]
text-cut (suc n) zero m a h l = absurd (omega arith)
text-cut (suc n) (suc k) m a h l = elim (Bool-cases (m a == 0)) [
  | inl y ↦ rw y refl
  | inr z ↦
      let h' : length (text k m (a + 1)) ≤ n = ground (arith, z) in
      rw z (ap (λ xs. m a ∷ xs) (text-cut n k m (a + 1) h' (omega arith)))
]
