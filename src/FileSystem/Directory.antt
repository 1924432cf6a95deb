-- ===== src/FileSystem/Directory.antt =====
-- What read_dentry_by_name (filesys.c) gives for a name that the directory holds, and for any other.
use ece391_os.Common.{
  ℕ, zero, suc, ◌+◌, ◌*◌, ◌≤◌, ◌<◌, ◌≡◌, ◌≢◌, refl, sym, ◌∙◌, ap, subst, arith, ltb, ◌==◌, false,
  some, length, Bool-cases, inl, inr, pos, minus_one, u32,
}
use ece391_os.Memory.{Mem, load32}
use ece391_os.CString.{strlen}
use ece391_os.CString.Length.{text, EndsAt, strlen_lem, length-text}
use ece391_os.CString.Copy.{Apart}
use ece391_os.CString.Compare.{AreBytes}
use ece391_os.FileSystem.{by_name_from, read_dentry_by_name, copy_numbers}
use ece391_os.FileSystem.Names.{
  text-same, copied_name, copied_name_lem, copied_name-EndsAt, copied_name-AreBytes, text-cut,
}
use ece391_os.FileSystem.Lookup.{length-text_ended, test_true, test_false}
use ece391_os.FileSystem.Entries.{entry, ArePlaced, SameBut, HasEntry, copy_numbers-HasEntry}

module _ (m0 : Mem) (base fname n dentry cur : ℕ) (at : ArePlaced m0 base fname n dentry cur) where
  -- An entry's name, and the one that is looked for.
  abbrev Names : ℕ → Type 0
  Names j = text 32 m0 fname ≡ text 32 m0 (entry base j)

  -- One round of the loop reads the names of the first memory.
  entry_text :
      (m : Mem) (i : ℕ)
      → SameBut cur m0 m
      → i < load32 m0 base
      → (text 32 m (entry base i) ≡ text 32 m0 (entry base i))
  entry_text m i s l =
      text-same 32 m0 m (entry base i) (entry base i)
        (λ j p. s (entry base i + j) (omega (arith, at.cur_apart)))

  entry-Apart : (i : ℕ) → i < load32 m0 base → Apart cur (entry base i) 32
  entry-Apart i l = omega (arith, at.cur_apart)

  -- What holds of the memory in each round.
  record IsRound (m : Mem) : Type 0 where
    same : SameBut cur m0 m
    bytes : AreBytes m

  round_name : (m : Mem) → IsRound m → EndsAt m fname n
  round_name m r = record {
    nul = r.same (fname + n) (omega (arith, at.keeps)) ∙ at.name.nul;
    before = λ i l q. at.name.before i l (sym (r.same (fname + i) (omega (arith, at.keeps))) ∙ q);
  }

  next-IsRound :
      (m : Mem) (i : ℕ)
      → IsRound m
      → i < load32 m0 base
      → IsRound (copied_name m cur (entry base i))
  next-IsRound m i r l = record {
    same = λ b h.
        copied_name_lem m cur (entry base i) b (entry-Apart i l) ∙ (ground arith ∙ r.same b h);
    bytes = copied_name-AreBytes m cur (entry base i) (entry-Apart i l) r.bytes;
  }

  -- The length that the loop finds, and its test.
  round_length :
      (m : Mem) (i : ℕ)
      → i < load32 m0 base
      → strlen 33 (copied_name m cur (entry base i)) cur ≡ some (length (text 32 m (entry base i)))
  round_length m i l =
      strlen_lem 33 (copied_name m cur (entry base i)) cur (length (text 32 m (entry base i)))
        (copied_name-EndsAt m cur (entry base i) (entry-Apart i l))
        (omega (arith, length-text 32 m (entry base i)))

  round_names :
      (m : Mem) (i : ℕ)
      → IsRound m
      → i < load32 m0 base
      → (text 32 m fname ≡ text 32 m0 fname)
        × (text 32 m (entry base i) ≡ text 32 m0 (entry base i))
  round_names m i r l =
      let ends = round_name m r in
      (
        sym (
              text-cut n 32 m fname (omega (arith, length-text_ended 32 m fname n ends at.short))
                at.short)
            ∙ (text-same n m0 m fname fname (λ j p. r.same (fname + j) (omega (arith, at.keeps)))
                ∙ text-cut n 32 m0 fname
                    (omega (arith, length-text_ended 32 m0 fname n at.name at.short)) at.short),
        entry_text m i r.same l,
      )

  -- The dentry_t that a round with the name fills.
  round_HasEntry :
      (m : Mem) (i : ℕ)
      → IsRound m
      → i < load32 m0 base
      → HasEntry m0 base i dentry (
          copy_numbers
            (copied_name (copied_name m cur (entry base i)) dentry cur)
            (entry base i)
            dentry)
  round_HasEntry m i r l =
      let m1 = copied_name m cur (entry base i) in
      copy_numbers-HasEntry m0 (copied_name m1 dentry cur) base i dentry at.bytes
        (λ b p q.
          copied_name_lem m1 dentry cur b (omega (arith, at.apart))
          ∙ (ground (arith, at.dentry_apart)
              ∙ (next-IsRound m i r l).same b (omega (arith, at.cur_apart))))
        (omega (arith, at.dentry_apart))

  -- The loop from entry `i` on comes to the first entry with the name.
  loop_found :
      (rounds i j : ℕ) (m : Mem)
      → IsRound m
      → i ≤ j
      → j < i + rounds
      → j < load32 m0 base
      → ((k : ℕ) → i ≤ k → k < j → text 32 m0 fname ≢ text 32 m0 (entry base k))
      → text 32 m0 fname ≡ text 32 m0 (entry base j)
      → (m' : Mem) × (by_name_from rounds m base fname n dentry cur i ≡ (pos 0, m'))
        × HasEntry m0 base j dentry m'
  unfolding by_name_from
  loop_found zero i j m r p q l before here = absurd (omega arith)
  loop_found (suc rounds) i j m r p q l before here =
      let low : i < load32 m0 base = omega arith in
      let directory : base + u32 ((i + 1) * 64) ≡ entry base i = omega (arith, at.directory) in
      let size = round_length m i low in
      let (names, entries) = round_names m i r low in
      let ends = round_name m r in
      elim (Bool-cases (i == j)) [
        | inl y ↦
            let z : i ≡ j = ground (arith, y) in
            let equal : text 32 m fname ≡ text 32 m (entry base i) =
              names ∙ (here ∙ (ap (λ k. text 32 m0 (entry base k)) (sym z) ∙ sym entries)) in
            let test =
              test_true m fname n cur (entry base i) r.bytes ends at.short at.keeps
                (entry-Apart i low) equal in
            let named = copied_name (copied_name m cur (entry base i)) dentry cur in
            (
              copy_numbers named (entry base i) dentry,
              rw (by_name_from, directory, size, test) refl,
              subst (λ k. HasEntry m0 base k dentry (copy_numbers named (entry base i) dentry)) z
                  (round_HasEntry m i r low),
            )
        | inr d ↦
            let differ : text 32 m fname ≢ text 32 m (entry base i) =
              λ e. before i (omega arith) (ground (arith, d)) (sym names ∙ (e ∙ entries)) in
            let test =
              test_false m fname n cur (entry base i) r.bytes ends at.short at.keeps
                (entry-Apart i low) differ in
            let (m', e, has) =
              loop_found rounds (i + 1) j (copied_name m cur (entry base i))
                (next-IsRound m i r low) (ground (arith, d)) (omega arith) l
                (λ k a b. before k (omega arith) b) here in
            (m', rw (by_name_from, directory, size, test) e, has)
      ]

  -- Without the name among the entries it comes to their end.
  loop_absent :
      (rounds i : ℕ) (m : Mem)
      → IsRound m
      → i + rounds ≤ load32 m0 base
      → ((k : ℕ) → i ≤ k → k < i + rounds → text 32 m0 fname ≢ text 32 m0 (entry base k))
      → (m' : Mem) × (by_name_from rounds m base fname n dentry cur i ≡ (minus_one, m'))
  unfolding by_name_from
  loop_absent zero i m r l none = (m, refl)
  loop_absent (suc rounds) i m r l none =
      let low : i < load32 m0 base = omega arith in
      let directory : base + u32 ((i + 1) * 64) ≡ entry base i = omega (arith, at.directory) in
      let size = round_length m i low in
      let (names, entries) = round_names m i r low in
      let differ : text 32 m fname ≢ text 32 m (entry base i) =
        λ e. none i (omega arith) (omega arith) (sym names ∙ (e ∙ entries)) in
      let test =
        test_false m fname n cur (entry base i) r.bytes (round_name m r) at.short at.keeps
          (entry-Apart i low) differ in
      let (m', e) =
        loop_absent rounds (i + 1) (copied_name m cur (entry base i)) (next-IsRound m i r low)
          (omega arith) (λ k a b. none k (omega arith) (omega arith)) in
      (m', rw (by_name_from, directory, size, test) e)

  first_IsRound : IsRound m0
  first_IsRound = record { same = λ b h. refl; bytes = at.bytes }

  -- A name of at most 32 characters that the directory holds is found, at the first entry that has
  -- it, and the dentry_t gets the type and the inode of that entry. The name, the directory, the
  -- dentry_t and the local array lie apart, and the directory's size does not wrap.
  pub read_dentry_by_name-HasEntry :
      (fuel j : ℕ)
      → n < fuel
      → j < load32 m0 base
      → ((k : ℕ) → k < j → text 32 m0 fname ≢ text 32 m0 (entry base k))
      → text 32 m0 fname ≡ text 32 m0 (entry base j)
      → (m' : Mem) × (read_dentry_by_name fuel m0 base fname dentry cur ≡ some (pos 0, m'))
        × HasEntry m0 base j dentry m'
  unfolding read_dentry_by_name
  read_dentry_by_name-HasEntry fuel j h l before here =
      let (m', e, has) =
        loop_found (load32 m0 base) 0 j m0 first_IsRound (omega arith) (omega arith) l
          (λ k a b. before k b) here in
      let fits : ltb 32 n ≡ false = ground (arith, at.short) in
      (m', rw (read_dentry_by_name, strlen_lem fuel m0 fname n at.name h, fits, e) refl, has)

  -- A name of at most 32 characters that no entry has is not found: the result is -1. The name, the
  -- directory, the dentry_t and the local array lie apart.
  pub read_dentry_by_name_absent :
      (fuel : ℕ)
      → n < fuel
      → ((k : ℕ) → k < load32 m0 base → text 32 m0 fname ≢ text 32 m0 (entry base k))
      → (m' : Mem) × (read_dentry_by_name fuel m0 base fname dentry cur ≡ some (minus_one, m'))
  unfolding read_dentry_by_name
  read_dentry_by_name_absent fuel h none =
      let (m', e) =
        loop_absent (load32 m0 base) 0 m0 first_IsRound (omega arith)
          (λ k a b. none k (omega arith)) in
      let fits : ltb 32 n ≡ false = ground (arith, at.short) in
      (m', rw (read_dentry_by_name, strlen_lem fuel m0 fname n at.name h, fits, e) refl)
