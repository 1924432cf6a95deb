-- ===== src/Paging.antt =====
-- student-distrib/paging.c: the page directory and the three page tables, as arrays of entries.
-- Where the linker puts the tables is given with the state.
pub mod Translate
pub mod Init
pub mod Remap
use ece391_os.Common.{
  ℕ, zero, suc, ◌+◌, ◌*◌, ◌/◌, bit_or, leb, ltb, ◌&&◌, Bool, true, false, if◌then◌else◌,
}
use ece391_os.Memory.{Mem, upd}

abbrev pub num_entries : ℕ
num_entries = 1024

abbrev pub convert_4mb : ℕ
convert_4mb = 0x400000

abbrev pub vm_start : ℕ
vm_start = 0x0B8

abbrev pub present_entry : ℕ
present_entry = 7

-- `stale` is set while an entry has changed that the TLB may still hold the old value of.
pub record Paging : Type 0 where
  pub page_directory : Mem
  pub page_table : Mem
  pub user_page_table : Mem
  pub video_page_table : Mem
  pub page_table_addr : ℕ
  pub user_page_table_addr : ℕ
  pub video_page_table_addr : ℕ
  pub stale : Bool
  pub enabled : Bool

-- Loading CR3 drops what the TLB holds.
unfoldable pub flush_tlb : Paging → Paging
flush_tlb p = record p { stale = false }

-- The first loop of paging_init, with the rounds that are left.
directory_from : ℕ → Mem → ℕ → Mem
unfolding upd
directory_from zero d i = d
directory_from (suc r) d i = directory_from r (upd d i 0x00000002) (i + 1)

-- The second loop.
table_from : ℕ → Mem → ℕ → Mem
unfolding upd
table_from zero t i = t
table_from (suc r) t i =
    let flags : ℕ = if leb vm_start i && leb i (vm_start + 3) then 3 else 2 in
    table_from r (upd t i (bit_or (i * 0x1000) flags)) (i + 1)

pub paging_init : Paging → Paging
paging_init p = record p {
  page_directory =
      upd (upd (directory_from num_entries p.page_directory 0) 0 (bit_or p.page_table_addr 3)) 1
        0x00400083;
  page_table = table_from num_entries p.page_table 0;
  stale = false;
  enabled = true;
}

unfoldable pub page_remap : ℕ → ℕ → Paging → Paging
unfolding flush_tlb upd
page_remap virt_addr phys_addr p = flush_tlb (record p {
  page_directory = upd p.page_directory (virt_addr / convert_4mb) (bit_or phys_addr 0x87);
  stale = true;
})

unfoldable pub table_to_page_mapping : ℕ → ℕ → ℕ → Paging → Paging
unfolding flush_tlb upd
table_to_page_mapping virt_addr phys_addr cur_page p = flush_tlb (record p {
  page_directory =
      upd p.page_directory (virt_addr / convert_4mb) (bit_or p.user_page_table_addr present_entry);
  user_page_table = upd p.user_page_table cur_page (bit_or phys_addr present_entry);
  stale = true;
})

unfoldable pub table_remap : ℕ → ℕ → Paging → Paging
unfolding flush_tlb upd
table_remap virt_addr phys_addr p = flush_tlb (record p {
  page_directory =
      upd p.page_directory (virt_addr / convert_4mb) (bit_or p.user_page_table_addr present_entry);
  user_page_table = upd p.user_page_table 0 (bit_or phys_addr present_entry);
  stale = true;
})

unfoldable pub vidmem_remap : ℕ → ℕ → Paging → Paging
unfolding flush_tlb upd
vidmem_remap virt_addr phys_addr p = flush_tlb (record p {
  page_directory =
      upd p.page_directory (virt_addr / convert_4mb) (bit_or p.video_page_table_addr present_entry);
  video_page_table = upd p.video_page_table 0 (bit_or phys_addr present_entry);
  stale = true;
})
