-- ===== src/Tests/Directory.antt =====
-- A directory of the entries "." and "ls", and the look-up of "ls" in it (filesys.c).
use ece391_os.Common.{
  ℕ, zero, suc, ◌<◌, ◌≡◌, ◌≢◌, refl, ap, inl, inr, arith, ◌==◌, if◌then◌else◌, some, List, get_or,
  pos, minus_one,
}
use ece391_os.Memory.{Mem, load32}
use ece391_os.CString.Length.{text}
use ece391_os.FileSystem.{read_dentry_by_name}
use ece391_os.FileSystem.Entries.{entry, ArePlaced, HasEntry}
use ece391_os.FileSystem.Directory.{read_dentry_by_name-HasEntry, read_dentry_by_name_absent}

-- The image at 0; "ls" and "x" at 1000 and 1100.
abbrev directory : Mem
directory b =
    if b == 0
    then 2
    else if b == 64
    then b'.'
    else if b == 128
    then b'l'
    else if b == 129
    then b's'
    else if b == 160
    then 2
    else if b == 164
    then 7
    else if b == 1000
    then b'l'
    else if b == 1001
    then b's'
    else if b == 1100
    then b'x'
    else 0

ls-ArePlaced : ArePlaced directory 0 1000 2 2000 3000
unfolding load32
ls-ArePlaced = record {
  bytes = λ a. ground arith;
  name = record { nul = refl; before = λ i h. ground arith };
  short = omega arith;
  directory = omega arith;
  keeps = inr (omega arith);
  cur_apart = inr (omega arith);
  dentry_apart = inr (omega arith);
  apart = inl (omega arith);
}

other_name : (k : ℕ) → k < 1 → text 32 directory 1000 ≢ text 32 directory (entry 0 k)
unfolding text
other_name zero h e =
    let first : 108 ≡ 46 = ap (λ (xs : List ℕ). get_or xs 0 0) e in absurd (omega (arith, first))
other_name (suc k) h e = absurd (omega arith)

same_name : text 32 directory 1000 ≡ text 32 directory (entry 0 1)
unfolding text
same_name = refl

read_dentry_by_name-HasEntry_example :
    (m' : Mem) × (read_dentry_by_name 3 directory 0 1000 2000 3000 ≡ some (pos 0, m'))
    × HasEntry directory 0 1 2000 m'
unfolding load32
read_dentry_by_name-HasEntry_example =
    read_dentry_by_name-HasEntry directory 0 1000 2 2000 3000 ls-ArePlaced 3 1 (omega arith)
      (omega arith) other_name same_name

x-ArePlaced : ArePlaced directory 0 1100 1 2000 3000
unfolding load32
x-ArePlaced = record {
  bytes = λ a. ground arith;
  name = record { nul = refl; before = λ i h. ground arith };
  short = omega arith;
  directory = omega arith;
  keeps = inr (omega arith);
  cur_apart = inr (omega arith);
  dentry_apart = inr (omega arith);
  apart = inl (omega arith);
}

no_name : (k : ℕ) → k < 2 → text 32 directory 1100 ≢ text 32 directory (entry 0 k)
unfolding text
no_name zero h e =
    let first : 120 ≡ 46 = ap (λ (xs : List ℕ). get_or xs 0 0) e in absurd (omega (arith, first))
no_name (suc zero) h e =
    let first : 120 ≡ 108 = ap (λ (xs : List ℕ). get_or xs 0 0) e in absurd (omega (arith, first))
no_name (suc (suc k)) h e = absurd (omega arith)

read_dentry_by_name_absent_example :
    (m' : Mem) × (read_dentry_by_name 3 directory 0 1100 2000 3000 ≡ some (minus_one, m'))
unfolding load32
read_dentry_by_name_absent_example =
    read_dentry_by_name_absent directory 0 1100 1 2000 3000 x-ArePlaced 3 (omega arith) no_name
