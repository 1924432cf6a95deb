-- ===== src/Memory/Move.antt =====
-- What memmove of lib.c leaves in memory and in the direction flag.
use ece391_os.Common.{ℕ, zero, suc, ◌+◌, ◌-◌, ◌≤◌, ◌≡◌, ◌∙◌, arith, ltb}
use ece391_os.Memory.{Mem, upd, copy_down, memmove}
use ece391_os.Memory.Copy.{copied, copy_up_lem}

copied_last :
    (m : Mem) (d s n b : ℕ)
    → s ≤ d
    → copied (upd m (d + n) (m (s + n))) d s n b ≡ copied m d s (suc n) b
unfolding upd
copied_last m d s n b h = ground arith

-- The registers start at the last byte of each block, and stop at 0 when both are empty.
copy_down_lem :
    (n : ℕ) (m : Mem) (d s e f b : ℕ)
    → s ≤ d
    → e ≡ d + n - 1
    → f ≡ s + n - 1
    → copy_down n m e f b ≡ copied m d s n b
unfolding copy_down
copy_down_lem zero m d s e f b h p q = ground arith
copy_down_lem (suc n) m d s e f b h p q =
    copy_down_lem n (upd m e (m f)) d s (e - 1) (f - 1) b h (omega arith) (omega arith)
    ∙ rw (ends.0, ends.1) (copied_last m d s n b h)
  where
    ends : (e ≡ d + n) × (f ≡ s + n)
    ends = omega arith

-- memmove copies the `n` bytes from `src` on to `dest` as they were before the call, and changes
-- no other byte, however the blocks overlap; it returns with the direction flag set exactly when
-- `src` lies below `dest`.
pub memmove_lem :
    (m : Mem) (dest src n b : ℕ)
    → ((memmove m dest src n).0 b ≡ copied m dest src n b)
      × ((memmove m dest src n).1 ≡ ltb src dest)
unfolding memmove
memmove_lem m d s n b =
    ground (arith, copy_up_lem n m d s b, copy_down_lem n m d s (d + n - 1) (s + n - 1) b)
