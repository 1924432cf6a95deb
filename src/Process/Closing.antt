-- ===== src/Process/Closing.antt =====
-- The loop of halt (syscalls.c) over the descriptors of the process.
use ece391_os.Common.{
  ℕ, zero, suc, ◌+◌, ◌≤◌, ◌<◌, ◌≡◌, ◌≢◌, refl, sym, ◌∙◌, subst, arith, ◌==◌, Bool-cases, inl, inr,
  ltb, ◌||◌, List, set, length, length-set, get_or-set_self, get_or-set_ne, ℤ, pos, negsuc,
  minus_one, false, some,
}
use ece391_os.Devices.Rtc.{Rtc}
use ece391_os.Devices.Rtc.Frequency.{rtc_close_returns}
use ece391_os.Process.Descriptors.{
  Fops, fops_stdin, fops_stdout, fops_rtc, fops_dir, fops_file, fops_error, FileDesc, free_desc,
  desc, close_with, sys_close,
}
use ece391_os.Process.Halt.{close_one, close_all}

close_with_returns :
    (ops : Fops) (a_old : ℕ) (rtc : Rtc)
    → (r : ℤ) × (rtc' : Rtc) × (close_with ops a_old rtc ≡ some (r, rtc'))
unfolding close_with
close_with_returns fops_rtc a_old rtc =
    let (rtc', e) = rtc_close_returns a_old rtc in (pos 0, rtc', e)
close_with_returns fops_error a_old rtc = (_, rtc, refl)
close_with_returns fops_stdin a_old rtc = (_, rtc, refl)
close_with_returns fops_stdout a_old rtc = (_, rtc, refl)
close_with_returns fops_dir a_old rtc = (_, rtc, refl)
close_with_returns fops_file a_old rtc = (_, rtc, refl)

-- `fds'` is `fds` but for entry `i`.
record IsLike (fds fds' : List FileDesc) (i : ℕ) : Type 0 where
  others : (j : ℕ) → i ≢ j → desc fds' j ≡ desc fds j
  long : length fds' ≡ length fds

set-IsLike : (fds : List FileDesc) (i : ℕ) (d : FileDesc) → IsLike fds (set fds i d) i
set-IsLike fds i d = record {
  others = λ j n. get_or-set_ne fds i j d free_desc n;
  long = length-set fds i d;
}

sys_close_closes :
    (i a_old : ℕ) (fds : List FileDesc) (rtc : Rtc) (r : ℤ) (rtc' : Rtc)
    → close_with (desc fds i).fops_ptr a_old rtc ≡ some (r, rtc')
    → (ltb i 2 || ltb 7 i) ≡ false
    → ((desc fds i).flags == 0) ≡ false
    → (r' : ℤ) × (sys_close (pos i) a_old fds rtc
        ≡ some (r', set fds i (record (desc fds i) { flags = 0 }), rtc'))
unfolding sys_close
sys_close_closes i a_old fds rtc (pos zero) rtc' e b u = (pos 0, rw (b, u, e) refl)
sys_close_closes i a_old fds rtc (pos (suc n)) rtc' e b u = (minus_one, rw (b, u, e) refl)
sys_close_closes i a_old fds rtc (negsuc n) rtc' e b u = (minus_one, rw (b, u, e) refl)

sys_close_returns :
    (i a_old : ℕ) (fds : List FileDesc) (rtc : Rtc)
    → (r : ℤ) × (fds' : List FileDesc) × (rtc' : Rtc) × (sys_close (pos i) a_old fds rtc
        ≡ some (r, fds', rtc'))
      × IsLike fds fds' i
unfolding sys_close
sys_close_returns i a_old fds rtc =
    let same : IsLike fds fds i = record { others = λ j n. refl; long = refl } in
    elim (Bool-cases (ltb i 2 || ltb 7 i)) [
      | inl b ↦ (minus_one, fds, rtc, rw b refl, same)
      | inr b ↦ elim (Bool-cases ((desc fds i).flags == 0)) [
        | inl u ↦ (minus_one, fds, rtc, rw (b, u) refl, same)
        | inr u ↦
            let (r, rtc', e) = close_with_returns (desc fds i).fops_ptr a_old rtc in
            let (r', f) = sys_close_closes i a_old fds rtc r rtc' e b u in
            (r', set fds i (record (desc fds i) { flags = 0 }), rtc', f, set-IsLike fds i _)
      ]
    ]

-- The entry that a round leaves.
abbrev pub IsOff : FileDesc → Type 0
IsOff d = (d.flags ≡ 0) × (d.fops_ptr ≡ fops_error)

close_one_returns :
    (i a_old : ℕ) (fds : List FileDesc) (rtc : Rtc)
    → (fds' : List FileDesc) × (rtc' : Rtc) × (close_one i a_old fds rtc ≡ some (fds', rtc'))
      × IsLike fds fds' i
      × (i < length fds → IsOff (desc fds' i))
unfolding close_one
close_one_returns i a_old fds rtc =
    let off : (fs : List FileDesc) → FileDesc =
      λ fs. record (desc fs i) { fops_ptr = fops_error; flags = 0 } in
    elim (Bool-cases ((desc fds i).flags == 1)) [
      | inl u ↦
          let (r, fds1, rtc', e, like) = sys_close_returns i a_old fds rtc in
          let next = set-IsLike fds1 i (off fds1) in
          (
            set fds1 i (off fds1),
            rtc',
            rw (u, e) refl,
            record {
              others = λ j n. next.others j n ∙ like.others j n;
              long = next.long ∙ like.long;
            },
            λ h. rw (get_or-set_self fds1 i (off fds1) free_desc (rw like.long h)) (refl, refl),
          )
      | inr u ↦ (
        set fds i (off fds),
        rtc,
        rw u refl,
        set-IsLike fds i (off fds),
        λ h. rw (get_or-set_self fds i (off fds) free_desc h) (refl, refl),
      )
    ]

-- The loop from entry `i` on returns; it leaves the entries from `i` on free, with operations that
-- all fail, and the ones before as they are.
pub close_all_returns :
    (r i a_old : ℕ) (fds : List FileDesc) (rtc : Rtc)
    → length fds ≡ i + r
    → (fds' : List FileDesc) × (rtc' : Rtc) × (close_all r a_old fds rtc i ≡ some (fds', rtc'))
      × (length fds' ≡ i + r)
      × ((j : ℕ) → j < i → desc fds' j ≡ desc fds j)
      × ((j : ℕ) → i ≤ j → j < i + r → IsOff (desc fds' j))
unfolding close_all
close_all_returns zero i a_old fds rtc l =
    (fds, rtc, refl, l, λ j h. refl, λ j h h'. absurd (omega arith))
close_all_returns (suc r) i a_old fds rtc l =
    let (fds1, rtc1, e, like, off) = close_one_returns i a_old fds rtc in
    let (fds2, rtc2, f, long, kept, gone) =
      close_all_returns r (i + 1) a_old fds1 rtc1 (like.long ∙ omega (arith, l)) in
    (
      fds2,
      rtc2,
      rw (e, f) refl,
      omega (arith, long),
      λ j h. kept j (omega arith) ∙ like.others j (omega arith),
      λ j h h'. elim (Bool-cases (i == j)) [
        | inl y ↦
            let z : i ≡ j = ground (arith, y) in
            subst (λ j. IsOff (desc fds2 j)) z
              (subst IsOff (sym (kept i (omega arith))) (off (omega (arith, l))))
        | inr n ↦ gone j (ground (arith, n)) (omega arith)
      ],
    )
