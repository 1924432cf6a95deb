-- ===== src/Memory/Copy.antt =====
-- What memcpy of lib.c leaves in memory: byte by byte up to an aligned address, four bytes at a
-- time, and the bytes left over.
use ece391_os.Common.{
  ℕ, zero, suc, ◌+◌, ◌-◌, ◌*◌, ◌/◌, ◌%◌, ◌≤◌, ◌≡◌, ◌∙◌, ap, fun_ext, arith, ◌⊎◌, leb, ltb, ◌&&◌,
  if◌then◌else◌,
}
use ece391_os.Memory.{Mem, upd, memcpy_top, rep_movsl, copy_up, movsl, memcpy}

-- `m` with the `n` bytes from `s` on at the addresses from `d` on.
abbrev pub copied : Mem → ℕ → ℕ → ℕ → Mem
copied m d s n b = if leb d b && ltb b (d + n) then m (s + (b - d)) else m b

-- A copy that goes up does not meet a byte that it has overwritten.
abbrev pub Ascends : ℕ → ℕ → ℕ → Type 0
Ascends d s n = (d ≤ s) ⊎ (s + n ≤ d)

pub copy_up_lem :
    (n : ℕ) (m : Mem) (d s b : ℕ) → Ascends d s n → copy_up n m d s b ≡ copied m d s n b
unfolding copy_up upd
copy_up_lem zero m d s b h = ground arith
copy_up_lem (suc n) m d s b h = ground (arith, copy_up_lem n (upd m d (m s)) (d + 1) (s + 1) b)

memcpy_top_lem :
    (n : ℕ) (m : Mem) (d s b : ℕ)
    → Ascends d s n
    → let (m1, edi, esi, ecx) = memcpy_top n m d s in
      (edi + ecx ≡ d + n) × (esi + ecx ≡ s + n) × (d ≤ edi) × (m1 b ≡ copied m d s (edi - d) b)
unfolding memcpy_top upd
memcpy_top_lem zero m d s b h = ground arith
memcpy_top_lem (suc n) m d s b h =
    ground (arith, memcpy_top_lem n (upd m d (m s)) (d + 1) (s + 1) b)

rep_movsl_lem :
    (n : ℕ) (m : Mem) (d s b : ℕ)
    → Ascends d s (4 * n)
    → let (m1, edi, esi) = rep_movsl n m d s in
      (edi ≡ d + 4 * n) × (esi ≡ s + 4 * n) × (m1 b ≡ copied m d s (4 * n) b)
unfolding rep_movsl movsl upd
rep_movsl_lem zero m d s b h = ground arith
rep_movsl_lem (suc n) m d s b h = ground (arith, rep_movsl_lem n (movsl m d s) (d + 4) (s + 4) b)

-- Copying on from where a copy ended makes one longer copy.
copied_step :
    (m : Mem) (d s k j b : ℕ)
    → Ascends d s (k + j)
    → copied (copied m d s k) (d + k) (s + k) j b ≡ copied m d s (k + j) b
copied_step m d s k j b h = ground arith

copied_twice :
    (m m1 : Mem) (d s k j d' s' b : ℕ)
    → Ascends d s (k + j)
    → d' ≡ d + k
    → s' ≡ s + k
    → ((a : ℕ) → m1 a ≡ copied m d s k a)
    → copied m1 d' s' j b ≡ copied m d s (k + j) b
copied_twice m m1 d s k j d' s' b h p q e =
    rw (fun_ext {f = m1} e, p, q) (copied_step m d s k j b h)

-- memcpy copies the `n` bytes from `src` on to `dest`, and changes nothing else, whatever the
-- alignment, if the blocks are apart or `dest` lies below `src`.
pub memcpy_lem :
    (m : Mem) (dest src n b : ℕ)
    → Ascends dest src n
    → memcpy m dest src n b ≡ copied m dest src n b
unfolding memcpy
memcpy_lem m d s n b h =
    let (m1, edi, esi, ecx) = memcpy_top n m d s in
    let (m2, edi2, esi2) = rep_movsl (ecx / 4) m1 edi esi in
    let k = edi - d in
    let top = λ (a : ℕ). memcpy_top_lem n m d s a h in
    let (p, q, r, _) = top b in
    let mid = λ (a : ℕ). rep_movsl_lem (ecx / 4) m1 edi esi a (omega arith) in
    let both : (a : ℕ) → m2 a ≡ copied m d s (k + 4 * (ecx / 4)) a = λ a.
      (mid a).2
      ∙ copied_twice m m1 d s k (4 * (ecx / 4)) edi esi a (omega arith) (omega arith) (omega arith)
          (λ c. (top c).3) in
    copy_up_lem (ecx % 4) m2 edi2 esi2 b (omega (arith, mid b))
    ∙ copied_twice m m2 d s (k + 4 * (ecx / 4)) (ecx % 4) edi2 esi2 b (omega arith)
        (omega (arith, mid b)) (omega (arith, mid b)) both
    ∙ ap (λ l. copied m d s l b) (omega arith)
