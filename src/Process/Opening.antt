-- ===== src/Process/Opening.antt =====
-- Which descriptor sys_open (syscalls.c) takes, and that sys_close gives it back.
use ece391_os.Common.{
  ℕ, ◌≤◌, ◌<◌, ◌≡◌, ◌≢◌, ◌⊎◌, refl, sym, ◌∙◌, ap, arith, ◌==◌, ==→eq, Bool-cases, true, inl, inr,
  Option, none, some, List, set, length, length-set, get_or-set_self, get_or-set_ne, pos, minus_one,
}
use ece391_os.Devices.Rtc.{Rtc}
use ece391_os.Devices.Rtc.Frequency.{rtc_open_returns, rtc_close_returns}
use ece391_os.Process.Descriptors.{
  FileDesc, fops_rtc, fops_dir, fops_file, desc, free_desc, claim_from, open_entry, close_with,
  sys_close,
}
use ece391_os.Process.Search.{Claimed, claim_from-Claimed, IsLeastFree, claimed_free}

-- Entry `i` of `fds'` is in use with the operations of the file type, and the others are as in
-- `fds`.
pub record IsOpened (filetype : ℕ) (fds fds' : List FileDesc) (i : ℕ) : Type 0 where
  pub in_use : (desc fds' i).flags ≡ 1
  pub start : (desc fds' i).file_position ≡ 0
  pub ops :
      ((filetype ≡ 0) × ((desc fds' i).fops_ptr ≡ fops_rtc))
      ⊎ (((filetype ≡ 1) × ((desc fds' i).fops_ptr ≡ fops_dir))
          ⊎ ((filetype ≡ 2) × ((desc fds' i).fops_ptr ≡ fops_file)))
  pub others : (j : ℕ) → j ≢ i → desc fds' j ≡ desc fds j
  pub eight : length fds' ≡ 8

set_twice-IsOpened :
    (filetype : ℕ) (fds : List FileDesc) (k : ℕ) (d d' : FileDesc)
    → length fds ≡ 8
    → k < 8
    → d'.flags ≡ 1
    → d'.file_position ≡ 0
    → ((filetype ≡ 0) × (d'.fops_ptr ≡ fops_rtc))
      ⊎ (((filetype ≡ 1) × (d'.fops_ptr ≡ fops_dir)) ⊎ ((filetype ≡ 2) × (d'.fops_ptr ≡ fops_file)))
    → IsOpened filetype fds (set (set fds k d) k d') k
set_twice-IsOpened filetype fds k d d' e l u z o =
    let long : length (set fds k d) ≡ 8 = length-set fds k d ∙ e in
    let now : desc (set (set fds k d) k d') k ≡ d' =
      get_or-set_self (set fds k d) k d' free_desc (rw long l) in
    record {
      in_use = rw now u;
      start = rw now z;
      ops = rw now o;
      others = λ j n.
          get_or-set_ne (set fds k d) k j d' free_desc (λ x. n (sym x))
          ∙ get_or-set_ne fds k j d free_desc (λ x. n (sym x));
      eight = length-set (set fds k d) k d' ∙ long;
    }

-- What open_entry does after the search.
open_entry_at :
    (filetype inode_number a_old k : ℕ) (fds : List FileDesc) (rtc : Rtc)
    → length fds ≡ 8
    → k < 8
    → filetype < 3
    → claim_from 6 fds 2
      ≡ some (k, set fds k (record (desc fds k) { flags = 1; file_position = 0 }))
    → (fds' : List FileDesc) × (rtc' : Rtc) × (open_entry filetype inode_number a_old fds rtc
        ≡ some (pos k, fds', rtc'))
      × IsOpened filetype fds fds' k
unfolding open_entry
open_entry_at filetype inode a_old k fds rtc e l t c =
    let d : FileDesc = record (desc fds k) { flags = 1; file_position = 0 } in
    let now : desc (set fds k d) k ≡ d = get_or-set_self fds k d free_desc (rw e l) in
    let (rtc', opens) = rtc_open_returns a_old rtc in
    elim (Bool-cases (filetype == 0)) [
      | inl zeroth ↦
          rw (open_entry, c, zeroth, opens)
            (
              _,
              rtc',
              refl,
              set_twice-IsOpened filetype fds k d _ e l (ap (λ x. x.flags) now)
                  (ap (λ x. x.file_position) now) (inl (==→eq filetype 0 zeroth, refl)),
            )
      | inr other ↦ elim (Bool-cases (filetype == 1)) [
        | inl first ↦
            rw (open_entry, c, other, first)
              (
                _,
                rtc,
                refl,
                set_twice-IsOpened filetype fds k d _ e l (ap (λ x. x.flags) now)
                    (ap (λ x. x.file_position) now) (inr (inl (==→eq filetype 1 first, refl))),
              )
        | inr later ↦
            let second : (filetype == 2) ≡ true = ground arith in
            rw (open_entry, c, other, later, second)
              (
                _,
                rtc,
                refl,
                set_twice-IsOpened filetype fds k d _ e l (ap (λ x. x.flags) now)
                    (ap (λ x. x.file_position) now) (inr (inr (==→eq filetype 2 second, refl))),
              )
      ]
    ]

close_opened :
    (filetype a_old k : ℕ) (fds fds' : List FileDesc) (rtc : Rtc)
    → 2 ≤ k
    → k < 8
    → IsOpened filetype fds fds' k
    → (rtc' : Rtc) × (sys_close (pos k) a_old fds' rtc
        ≡ some (pos 0, set fds' k (record (desc fds' k) { flags = 0 }), rtc'))
unfolding sys_close close_with
close_opened filetype a_old k fds fds' rtc h l o =
    let (rtc', closes) = rtc_close_returns a_old rtc in
    elim o.ops [
      | inl (z, x) ↦ (rtc', ground (arith, o.in_use, x, closes))
      | inr (inl (z, x)) ↦ (rtc, ground (arith, o.in_use, x))
      | inr (inr (z, x)) ↦ (rtc, ground (arith, o.in_use, x))
    ]

-- Entry `k` of `fds'` is free, and the others are as in `fds`.
pub record IsClosed (fds fds' : List FileDesc) (k : ℕ) : Type 0 where
  pub freed : (desc fds' k).flags ≡ 0
  pub others : (i : ℕ) → i ≢ k → desc fds' i ≡ desc fds i

-- With a free descriptor `j` from 2 on, opening a file of one of the three types returns the least
-- free descriptor, marks it as in use at position 0 with the operations of
-- its type (0 the clock, 1 a directory, 2 a file), and leaves all
-- the others; closing it then returns 0 and makes it free again, and the others are still the same.
pub open_close :
    (filetype inode_number a_old j : ℕ) (fds : List FileDesc) (rtc : Rtc)
    → length fds ≡ 8
    → filetype < 3
    → 2 ≤ j
    → j < 8
    → (desc fds j).flags ≡ 0
    → (k : ℕ) × (fds' fds'' : List FileDesc) × (rtc' rtc'' : Rtc) × (k ≤ j)
      × IsLeastFree fds k
      × (open_entry filetype inode_number a_old fds rtc ≡ some (pos k, fds', rtc'))
      × IsOpened filetype fds fds' k
      × (sys_close (pos k) a_old fds' rtc' ≡ some (pos 0, fds'', rtc''))
      × IsClosed fds fds'' k
open_close filetype inode a_old j fds rtc e t p q free =
    let (k, high, first, found) = claimed_free j fds p q free in
    let (fds', rtc', opens, o) =
      open_entry_at filetype inode a_old k fds rtc e (omega arith) t found in
    let (rtc'', closes) = close_opened filetype a_old k fds fds' rtc' first.low (omega arith) o in
    let d : FileDesc = record (desc fds' k) { flags = 0 } in
    let now : desc (set fds' k d) k ≡ d =
      get_or-set_self fds' k d free_desc (rw o.eight (omega arith)) in
    (
      k,
      fds',
      set fds' k d,
      rtc',
      rtc'',
      high,
      first,
      opens,
      o,
      closes,
      record {
        freed = ap (λ y. y.flags) now;
        others = λ i n. get_or-set_ne fds' k i d free_desc (λ y. n (sym y)) ∙ o.others i n;
      },
    )

-- With no free descriptor from 2 on, opening returns -1 and changes nothing.
pub open_full :
    (filetype inode_number a_old : ℕ) (fds : List FileDesc) (rtc : Rtc)
    → ((j : ℕ) → 2 ≤ j → j < 8 → (desc fds j).flags ≢ 0)
    → open_entry filetype inode_number a_old fds rtc ≡ some (minus_one, fds, rtc)
unfolding open_entry
open_full filetype inode a_old fds rtc h =
    go (claim_from 6 fds 2) refl (claim_from-Claimed 6 2 fds (omega arith) refl)
  where
    go :
        (c : Option (ℕ × List FileDesc))
        → claim_from 6 fds 2 ≡ c
        → Claimed fds 2 c
        → open_entry filetype inode a_old fds rtc ≡ some (minus_one, fds, rtc)
    go none x _ = rw (open_entry, x) refl
    go (some (k, claimed)) x (low, high, was, _, _) = absurd (h k low high was)
