-- ===== src/Paging/Init.antt =====
-- The translation of addresses that paging_init of paging.c sets up.
use ece391_os.Common.{
  ℕ, zero, suc, ◌+◌, ◌*◌, ◌/◌, ◌%◌, ◌^◌, ◌<◌, ◌≡◌, arith, bit_or, bit_or-flags, leb, ltb, ◌&&◌,
  ◌||◌, if◌then◌else◌, none, some,
}
use ece391_os.Memory.{Mem, upd}
use ece391_os.Paging.{Paging, directory_from, table_from, paging_init, vm_start}
use ece391_os.Paging.Translate.{translate, ArePlaced}

directory_from_lem :
    (r : ℕ) (d : Mem) (i j : ℕ)
    → directory_from r d i j ≡ (if leb i j && ltb j (i + r) then 2 else d j)
unfolding directory_from upd
directory_from_lem zero d i j = ground arith
directory_from_lem (suc r) d i j = ground (arith, directory_from_lem r (upd d i 2) (i + 1) j)

-- The flags of a page below 4 MB: present for the four pages from 0xB8000 on.
abbrev low_flags : ℕ → ℕ
low_flags i = if leb vm_start i && leb i (vm_start + 3) then 3 else 2

low_entry : (i : ℕ) → bit_or (i * 0x1000) (low_flags i) ≡ i * 4096 + low_flags i
low_entry i = bit_or-flags 12 i (low_flags i) (ground arith)

table_from_lem :
    (r : ℕ) (t : Mem) (i j : ℕ)
    → table_from r t i j ≡ (if leb i j && ltb j (i + r) then j * 4096 + low_flags j else t j)
unfolding table_from upd
table_from_lem zero t i j = ground arith
table_from_lem (suc r) t i j =
    ground
      (arith, low_entry i, table_from_lem r (upd t i (bit_or (i * 0x1000) (low_flags i))) (i + 1) j)

-- After paging_init the kernel's 4 MB at 4 MB and the four pages at 0xB8000 are mapped to
-- themselves, and every other address of the 32-bit space faults.
pub paging_init-translate :
    (a : ℕ) (p : Paging)
    → ArePlaced p
    → a < 2 ^ 32
    → translate (paging_init p) a ≡ (
        if (leb 0x400000 a && ltb a 0x800000) || (leb 0xB8000 a && ltb a 0xBC000)
        then some a
        else none)
unfolding paging_init translate upd
paging_init-translate a p w h =
    let d = directory_from_lem 1024 p.page_directory 0 (a / 2 ^ 22) in
    let t = table_from_lem 1024 p.page_table 0 (a / 4096 % 1024) in
    let e : bit_or p.page_table_addr 3 ≡ p.page_table_addr + 3 =
      rw w.table_aligned (bit_or-flags 12 w.table_number 3 (omega arith)) in
    ground (arith, d, t, e)
