-- ===== src/Paging/Translate.antt =====
-- How the processor reads the tables of paging.c: from a virtual to a physical address.
use ece391_os.Common.{
  ℕ, ◌+◌, ◌*◌, ◌/◌, ◌%◌, ◌^◌, ◌≡◌, ◌≢◌, ◌==◌, Bool, if◌then◌else◌, Option, none, some,
}
use ece391_os.Paging.{Paging}

abbrev pub is_present : ℕ → Bool
is_present entry = entry % 2 == 1

-- Bit 7 of a directory entry: a page of 4 MB.
abbrev pub is_large : ℕ → Bool
is_large entry = entry / 128 % 2 == 1

-- The page tables, by their addresses.
unfoldable pub table_entry : Paging → ℕ → ℕ → Option ℕ
table_entry p table i =
    if table == p.page_table_addr
    then some (p.page_table i)
    else if table == p.user_page_table_addr
    then some (p.user_page_table i)
    else if table == p.video_page_table_addr
    then some (p.video_page_table i)
    else none

-- `none`: a page fault.
unfoldable pub translate : Paging → ℕ → Option ℕ
unfolding table_entry
translate p a =
    let pde = p.page_directory (a / 2 ^ 22) in
    let small : Option ℕ = elim (table_entry p (pde / 4096 * 4096) (a / 4096 % 1024)) [
      | none ↦ none
      | some pte ↦ if is_present pte then some (pte / 4096 * 4096 + a % 4096) else none
    ] in
    if is_present pde
    then (if is_large pde then some (pde / 2 ^ 22 * 2 ^ 22 + a % 2 ^ 22) else small)
    else none

-- The tables are aligned and differ, as the linker places them.
pub record ArePlaced (p : Paging) : Type 0 where
  pub table_number : ℕ
  pub user_number : ℕ
  pub video_number : ℕ
  pub table_aligned : p.page_table_addr ≡ table_number * 2 ^ 12
  pub user_aligned : p.user_page_table_addr ≡ user_number * 2 ^ 12
  pub video_aligned : p.video_page_table_addr ≡ video_number * 2 ^ 12
  pub table_ne_user : table_number ≢ user_number
  pub table_ne_video : table_number ≢ video_number
  pub user_ne_video : user_number ≢ video_number
