-- ===== src/Memory.antt =====
-- Byte memory, and the block operations of student-distrib/lib.c (memset, memset_word,
-- memset_dword, memcpy, memmove). Each is inline assembly there; a definition here is the same
-- machine loop, one instruction of the loop to a line.
-- An address is a number and does not wrap. A register of a loop carries its name.
pub mod Fill
pub mod Copy
pub mod Move
use ece391_os.Common.{
  ℕ, zero, suc, ◌+◌, ◌-◌, ◌*◌, ◌/◌, ◌%◌, ◌^◌, bit_or, Bool, true, false, leb, ltb, ◌==◌, ◌&&◌,
  if◌then◌else◌,
}

-- The byte at each address.
abbrev pub Mem : Type 0
Mem = ℕ → ℕ

-- movb %al, (a)
unfoldable pub upd : Mem → ℕ → ℕ → Mem
upd m a v b = if a == b then v else m b

-- A store of a 16-bit and of a 32-bit word, low byte first.
unfoldable pub store16 : Mem → ℕ → ℕ → Mem
unfolding upd
store16 m a v = upd (upd m a (v % 256)) (a + 1) (v / 2 ^ 8 % 256)

unfoldable pub store32 : Mem → ℕ → ℕ → Mem
unfolding upd
store32 m a v =
    upd (upd (upd (upd m a (v % 256)) (a + 1) (v / 2 ^ 8 % 256)) (a + 2) (v / 2 ^ 16 % 256)) (a + 3)
      (v / 2 ^ 24 % 256)

-- A load of a 32-bit word.
unfoldable pub load32 : Mem → ℕ → ℕ
load32 m a = m a + m (a + 1) * 2 ^ 8 + m (a + 2) * 2 ^ 16 + m (a + 3) * 2 ^ 24

-- .memset_top: bytes up to an aligned address. The new %edi and %ecx come back with the memory.
memset_top : ℕ → Mem → ℕ → ℕ → Mem × ℕ × ℕ
memset_top zero m edi al = (m, edi, 0)
memset_top (suc ecx) m edi al =
    let rest = memset_top ecx (upd m edi al) (edi + 1) al in
    if edi % 4 == 0 then (m, edi, suc ecx) else rest

-- rep stosl
rep_stosl : ℕ → Mem → ℕ → ℕ → Mem × ℕ
rep_stosl zero m edi eax = (m, edi)
rep_stosl (suc ecx) m edi eax = rep_stosl ecx (store32 m edi eax) (edi + 4) eax

-- .memset_bottom: the bytes that are left over.
memset_bottom : ℕ → Mem → ℕ → ℕ → Mem
memset_bottom zero m edi al = m
memset_bottom (suc edx) m edi al = memset_bottom edx (upd m edi al) (edi + 1) al

-- c << 24 | c << 16 | c << 8 | c
spread : ℕ → ℕ
spread c = bit_or (bit_or (bit_or (c * 2 ^ 24) (c * 2 ^ 16)) (c * 2 ^ 8)) c

pub memset : Mem → ℕ → ℕ → ℕ → Mem
unfolding memset_top rep_stosl memset_bottom spread upd store32
memset m s c n =
    let c' = c % 256 in
    let (m1, edi, ecx) = memset_top n m s c' in
    let (m2, edi2) = rep_stosl (ecx / 4) m1 edi (spread c') in memset_bottom (ecx % 4) m2 edi2 c'

-- rep stosw over `n` 16-bit words.
pub memset_word : ℕ → Mem → ℕ → ℕ → Mem
unfolding store16
memset_word zero m edi eax = m
memset_word (suc ecx) m edi eax = memset_word ecx (store16 m edi eax) (edi + 2) eax

-- rep stosl over `n` 32-bit words.
pub memset_dword : Mem → ℕ → ℕ → ℕ → Mem
unfolding rep_stosl store32
memset_dword m s c n = (rep_stosl n m s c).0

-- movsl: four bytes are read before any is written.
movsl : Mem → ℕ → ℕ → Mem
movsl m edi esi =
    upd (upd (upd (upd m edi (m esi)) (edi + 1) (m (esi + 1))) (edi + 2) (m (esi + 2))) (edi + 3)
      (m (esi + 3))

-- .memcpy_top
memcpy_top : ℕ → Mem → ℕ → ℕ → Mem × ℕ × ℕ × ℕ
memcpy_top zero m edi esi = (m, edi, esi, 0)
memcpy_top (suc ecx) m edi esi =
    let rest = memcpy_top ecx (upd m edi (m esi)) (edi + 1) (esi + 1) in
    if edi % 4 == 0 then (m, edi, esi, suc ecx) else rest

-- rep movsl
rep_movsl : ℕ → Mem → ℕ → ℕ → Mem × ℕ × ℕ
rep_movsl zero m edi esi = (m, edi, esi)
rep_movsl (suc ecx) m edi esi = rep_movsl ecx (movsl m edi esi) (edi + 4) (esi + 4)

-- rep movsb with the direction flag clear, which .memcpy_bottom does too.
pub copy_up : ℕ → Mem → ℕ → ℕ → Mem
copy_up zero m edi esi = m
copy_up (suc ecx) m edi esi = copy_up ecx (upd m edi (m esi)) (edi + 1) (esi + 1)

-- rep movsb with the direction flag set. The registers point at the last byte of each block.
copy_down : ℕ → Mem → ℕ → ℕ → Mem
copy_down zero m edi esi = m
copy_down (suc ecx) m edi esi = copy_down ecx (upd m edi (m esi)) (edi - 1) (esi - 1)

unfoldable pub memcpy : Mem → ℕ → ℕ → ℕ → Mem
unfolding memcpy_top rep_movsl copy_up movsl upd
memcpy m dest src n =
    let (m1, edi, esi, ecx) = memcpy_top n m dest src in
    let (m2, edi2, esi2) = rep_movsl (ecx / 4) m1 edi esi in copy_up (ecx % 4) m2 edi2 esi2

-- The memory, and the direction flag that the routine leaves (`true`: set). It starts with `cld`,
-- and nothing clears the flag after `std`.
pub memmove : Mem → ℕ → ℕ → ℕ → Mem × Bool
unfolding copy_up copy_down upd
memmove m dest src n =
    if leb dest src
    then (copy_up n m dest src, false)
    else (copy_down n m (dest + n - 1) (src + n - 1), true)
