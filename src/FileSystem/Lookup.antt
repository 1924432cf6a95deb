-- ===== src/FileSystem/Lookup.antt =====
-- read_dentry_by_name (filesys.c) finds the first entry with the name.
use ece391_os.Common.{
  ℕ, ◌+◌, ◌≤◌, ◌≡◌, ◌≢◌, ◌⊎◌, refl, sym, ◌∙◌, ap, arith, ltb, ◌==◌, ◌&&◌, true, false, length,
  Bool-cases, inl, inr, ℤ, pos, negsuc,
}
use ece391_os.Memory.{Mem}
use ece391_os.CString.{strncmp}
use ece391_os.CString.Length.{text, EndsAt, text_end, text_bytes}
use ece391_os.CString.Copy.{Apart}
use ece391_os.CString.Compare.{AreBytes, strncmp-zero_iff}
use ece391_os.FileSystem.{is_zero}
use ece391_os.FileSystem.Names.{
  text-same, copied_name, copied_name_lem, text-copied_name, copied_name-AreBytes, text-cut,
}

pub length-text_ended : (k : ℕ) (m : Mem) (s n : ℕ) → EndsAt m s n → n ≤ k → length (text k m s) ≡ n
length-text_ended k m s n e h =
    let len = length (text k m s) in
    elim (Bool-cases (ltb len n)) [
      | inl short ↦
          absurd (e.before len (ground (arith, short)) (text_end k m s (ground (arith, short))))
      | inr long ↦ elim (Bool-cases (ltb n len)) [
        | inl more ↦ absurd ((text_bytes k m s n (ground (arith, more))).0 e.nul)
        | inr same ↦ ground (arith, long, same)
      ]
    ]

is_zero-pos : (z : ℤ) → is_zero z ≡ true → z ≡ pos 0
is_zero-pos (pos n) h = ap pos (ground (arith, h))
is_zero-pos (negsuc n) h = absurd (cc)

-- The name at `fname`, of `n` characters, and the local array at `cur` do not meet.
abbrev pub KeepsName : ℕ → ℕ → ℕ → Type 0
KeepsName fname n cur = (cur + 33 ≤ fname) ⊎ (fname + n + 1 ≤ cur)

module _ (m : Mem) (fname n cur d : ℕ) (bytes : AreBytes m) (e : EndsAt m fname n) (short : n ≤ 32)
    (keeps : KeepsName fname n cur) (apart : Apart cur d 32) where
  -- The name is still what it was when curName has been filled.
  name_here : text n (copied_name m cur d) fname ≡ text 32 m fname
  name_here =
      text-same n m (copied_name m cur d) fname fname
        (λ j l. copied_name_lem m cur d (fname + j) apart ∙ ground arith)
      ∙ text-cut n 32 m fname (omega (arith, length-text_ended 32 m fname n e short)) short

  current_here : length (text 32 m d) ≤ n → text n (copied_name m cur d) cur ≡ text 32 m d
  current_here h =
      let same = text-copied_name m cur d apart in
      let fits : length (text 32 (copied_name m cur d) cur) ≤ n = rw same h in
      text-cut n 32 (copied_name m cur d) cur fits short ∙ same

  -- The test of the loop is equality of the names.
  pub test_true :
      text 32 m fname ≡ text 32 m d
      → (n == length (text 32 m d) && is_zero (strncmp (copied_name m cur d) fname cur n)) ≡ true
  test_true q =
      let long : length (text 32 m d) ≡ n =
        ap length (sym q) ∙ length-text_ended 32 m fname n e short in
      let zeroth : strncmp (copied_name m cur d) fname cur n ≡ pos 0 =
        (strncmp-zero_iff n (copied_name m cur d) fname cur
            (copied_name-AreBytes m cur d apart bytes)).1
          (name_here ∙ (q ∙ sym (current_here (omega (arith, long))))) in
      let self : (n == n) ≡ true = ground arith in rw (long, zeroth, self) refl

  pub test_false :
      text 32 m fname ≢ text 32 m d
      → (n == length (text 32 m d) && is_zero (strncmp (copied_name m cur d) fname cur n)) ≡ false
  test_false q = elim (Bool-cases (n == length (text 32 m d))) [
    | inr other ↦ rw other refl
    | inl same ↦ elim (Bool-cases (is_zero (strncmp (copied_name m cur d) fname cur n))) [
      | inr differ ↦ rw (same, differ) refl
      | inl equal ↦
          let texts =
            (strncmp-zero_iff n (copied_name m cur d) fname cur
                (copied_name-AreBytes m cur d apart bytes)).0
              (is_zero-pos _ equal) in
          absurd (q (sym name_here ∙ (texts ∙ current_here (ground (arith, same)))))
    ]
  ]
