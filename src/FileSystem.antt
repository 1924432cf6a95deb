-- ===== src/FileSystem.antt =====
-- The read-only file system of student-distrib/filesys.c: read_data, read_dentry_by_index,
-- read_dentry_by_name, and the file and directory operations on top of them.
-- The image lies in memory from `base` (FILESYSLOC) on: the boot block with the directory entries,
-- one block for each inode, and the data blocks, 4096 bytes each.
-- A local array of the source is given by its address. A pointer sum does not wrap; a `uint32_t`
-- product or sum does.
pub mod Image
pub mod Blocks
pub mod Data
pub mod Sequence
pub mod Names
pub mod Lookup
pub mod Entries
pub mod Directory
use ece391_os.Common.{
  ℕ, zero, suc, ◌+◌, ◌-◌, ◌*◌, ◌/◌, ◌%◌, leb, ltb, ◌==◌, ◌&&◌, if◌then◌else◌, Option, none, some, ℤ,
  pos, minus_one, u32, int32, uint32, is_zero,
}
use mathlib.Core.Option
use ece391_os.Memory.{Mem, upd, store32, load32, memcpy, memset}
use ece391_os.CString.{strlen, strncmp, strncpy}

abbrev pub block_size : ℕ
block_size = 4096

abbrev pub name_size : ℕ
name_size = 32

abbrev pub dentry_size : ℕ
dentry_size = 64

-- The loop of read_data. `ptr` is data_block_index_ptr_in_inode, `start` data_block_start_ptr and
-- `total` total_data_blocks. Each round takes at least one from `length`, the first fuel.
pub read_blocks : ℕ → Mem → ℕ → ℕ → ℕ → ℕ → ℕ → ℕ → ℤ × Mem
read_blocks zero m start total ptr buf length byte_count = (pos 0, m)
read_blocks (suc fuel) m start total ptr buf length byte_count =
    let ptr' = ptr + 4 in
    let block = load32 m ptr' in
    let data_ptr = start + u32 (block_size * block) in
    let rest =
      read_blocks fuel (memcpy m buf data_ptr block_size) start total ptr' (buf + block_size)
        (length - block_size) (u32 (byte_count + block_size)) in
    if length == 0
    then (pos 0, m)
    else if leb total block
    then (minus_one, m)
    else if leb length block_size
    then (int32 (u32 (byte_count + length)), memcpy m buf data_ptr length)
    else rest

-- From "Set a pointer to the first relevant data block index" on, with the length cut.
pub read_from : Mem → ℕ → ℕ → ℕ → ℕ → ℕ → ℕ → ℤ × Mem
unfolding read_blocks
read_from m start total inode_ptr offset buf length =
    let ptr = inode_ptr + (offset / block_size + 1) * 4 in
    let block = load32 m ptr in
    let data_ptr = start + u32 (block_size * block) + offset % block_size in
    let first = block_size - offset % block_size in
    if leb total block
    then (minus_one, m)
    else if leb (u32 (offset % block_size + length)) block_size
    then (int32 length, memcpy m buf data_ptr length)
    else read_blocks (length - first) (memcpy m buf data_ptr first) start total ptr (buf + first)
        (length - first) first

pub read_data : Mem → ℕ → ℕ → ℕ → ℕ → ℕ → ℤ × Mem
unfolding read_from
read_data m base inode offset buf length =
    let total_inodes = load32 m (base + 4) in
    let total_data_blocks = load32 m (base + 8) in
    let inode_ptr = base + u32 (block_size * u32 (inode + 1)) in
    let start = base + u32 (block_size * u32 (total_inodes + 1)) in
    let file_size = load32 m inode_ptr in
    let length' = if ltb file_size (u32 (length + offset)) then file_size - offset else length in
    if leb total_inodes inode
    then (minus_one, m)
    else if leb file_size offset
    then (pos 0, m)
    else read_from m start total_data_blocks inode_ptr offset buf length'

-- file_read on a descriptor with this inode and file position: the result, the new position and the
-- memory. `nbytes` is converted to uint32_t, and the result -1 is added to the position too.
unfoldable pub file_read : Mem → ℕ → ℕ → ℕ → ℕ → ℤ → ℤ × ℕ × Mem
file_read m base inode position buf nbytes =
    let (temp, m') = read_data m base inode position buf (uint32 nbytes) in
    (temp, u32 (position + uint32 temp), m')

-- A dentry_t at `dentry`: fileName[33], and behind the padding filetype and inodeNumber.
abbrev pub filetype_at : ℕ → ℕ
filetype_at dentry = dentry + 36

abbrev pub inode_number_at : ℕ → ℕ
inode_number_at dentry = dentry + 40

-- filetype and inodeNumber of the entry at `directory`, as the last two assignments copy them.
abbrev copy_numbers : Mem → ℕ → ℕ → Mem
copy_numbers m directory dentry =
    let m' = store32 m (filetype_at dentry) (load32 m (directory + name_size)) in
    store32 m' (inode_number_at dentry) (load32 m' (directory + name_size + 4))

pub read_dentry_by_index : Mem → ℕ → ℕ → ℕ → ℤ × Mem
read_dentry_by_index m base index dentry =
    let directory = base + u32 (u32 (index + 1) * dentry_size) in
    let named = upd (strncpy m dentry directory name_size) (dentry + name_size) 0 in
    if leb (load32 m base) index
    then (minus_one, m)
    else (pos 0, copy_numbers named directory dentry)

-- The loop of read_dentry_by_name, with the rounds that are left. `cur_name` is the address of the
-- local curName[33]; the copy of it always ends in a NUL, so that its strlen needs fuel 33.
by_name_from : ℕ → Mem → ℕ → ℕ → ℕ → ℕ → ℕ → ℕ → ℤ × Mem
by_name_from zero m base fname length dentry cur_name i = (minus_one, m)
by_name_from (suc rounds) m base fname length dentry cur_name i =
    let directory = base + u32 ((i + 1) * dentry_size) in
    let m1 = upd (strncpy m cur_name directory name_size) (cur_name + name_size) 0 in
    let cur_len = Option.get_or (strlen 33 m1 cur_name) 33 in
    let named = upd (strncpy m1 dentry cur_name name_size) (dentry + name_size) 0 in
    let rest = by_name_from rounds m1 base fname length dentry cur_name (i + 1) in
    if length == cur_len && is_zero (strncmp m1 fname cur_name length)
    then (pos 0, copy_numbers named directory dentry)
    else rest

-- `none`: no NUL in the first `fuel` bytes of the name.
pub read_dentry_by_name : ℕ → Mem → ℕ → ℕ → ℕ → ℕ → Option (ℤ × Mem)
unfolding by_name_from
read_dentry_by_name fuel m base fname dentry cur_name = elim (strlen fuel m fname) [
  | none ↦ none
  | some length ↦ some (
      if ltb name_size length
      then (minus_one, m)
      else by_name_from (load32 m base) m base fname length dentry cur_name 0)
]

-- directory_read, with the static `directoryLoc`: the result, the new directoryLoc and the memory.
-- `dentry` is the address of the local; its name ends in a NUL.
pub directory_read : Mem → ℕ → ℕ → ℕ → ℕ → ℤ × ℕ × Mem
unfolding read_dentry_by_index
directory_read m base directory_loc dentry buf =
    let (r, m1) = read_dentry_by_index m base directory_loc dentry in
    let m2 = memset m1 buf 0 33 in
    let len = Option.get_or (strlen 33 m2 dentry) 33 in
    if is_zero r then (pos len, directory_loc + 1, strncpy m2 buf dentry len) else (pos 0, 0, m1)
