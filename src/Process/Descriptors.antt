-- ===== src/Process/Descriptors.antt =====
-- The file descriptors of a process (syscalls.c): sys_open, sys_close, and the table that execute
-- sets up. The functions of a fops_t are named by the table they come from.
use ece391_os.Common.{
  ℕ, zero, suc, ◌+◌, ◌-◌, ltb, ◌==◌, ◌||◌, if◌then◌else◌, Option, none, some, List, ◌∷◌, get_or,
  set, replicate, ℤ, pos, negsuc, minus_one, int32,
}
use ece391_os.Memory.{Mem, load32}
use ece391_os.FileSystem.{read_dentry_by_name, filetype_at, inode_number_at}
use ece391_os.Devices.Rtc.{Rtc, rtc_open, rtc_close}

-- The operation tables.
pub data Fops : Type 0 where
  fops_stdin : Fops
  fops_stdout : Fops
  fops_rtc : Fops
  fops_dir : Fops
  fops_file : Fops
  fops_error : Fops

-- file_desc_t. `flags` is 0 (FD_OCCUP) for a free entry and 1 (FD_AVAIL) for one in use.
pub record FileDesc : Type 0 where
  pub fops_ptr : Fops
  pub inode : ℤ
  pub file_position : ℕ
  pub flags : ℕ

-- The operations that do nothing but return.
abbrev pub file_open : ℤ
file_open = pos 0

abbrev pub file_close : ℤ
file_close = pos 0

abbrev pub directory_open : ℤ
directory_open = pos 0

abbrev pub directory_close : ℤ
directory_close = pos 0

abbrev pub terminal_close : ℤ
terminal_close = pos 0

abbrev pub has_error : ℤ
has_error = minus_one

abbrev pub num_max_open_files : ℕ
num_max_open_files = 8

abbrev pub free_desc : FileDesc
free_desc = record { fops_ptr = fops_error; inode = minus_one; file_position = 0; flags = 0 }

-- The array as `execute` sets it up: the loop, then STDIN and STDOUT.
abbrev pub new_fds : List FileDesc
new_fds =
    record free_desc { fops_ptr = fops_stdin; flags = 1 }
    ∷ record free_desc { fops_ptr = fops_stdout; flags = 1 }
    ∷ replicate 6 free_desc

abbrev pub desc : List FileDesc → ℕ → FileDesc
desc fds i = get_or fds i free_desc

-- The loop of sys_open, with the rounds that are left: the index, and the array with it marked.
-- `none`: there is no free entry.
unfoldable pub claim_from : ℕ → List FileDesc → ℕ → Option (ℕ × List FileDesc)
claim_from zero fds index = some (index, fds)
claim_from (suc r) fds index =
    let rest = claim_from r fds (index + 1) in
    if (desc fds index).flags == 0
    then some (index, set fds index (record (desc fds index) { flags = 1; file_position = 0 }))
    else if index == num_max_open_files - 1
    then none
    else rest

abbrev opened : Fops → ℤ → ℕ → List FileDesc → List FileDesc
opened ops inode index fds =
    set fds index (record (desc fds index) { inode = inode; fops_ptr = ops })

-- The rest of sys_open, on the directory entry's type and inode. Opening a directory or a file
-- always succeeds; `none` is that of rtc_open.
unfoldable pub open_entry : ℕ → ℕ → ℕ → List FileDesc → Rtc → Option (ℤ × List FileDesc × Rtc)
unfolding claim_from
open_entry filetype inode_number a_old fds rtc = elim (claim_from 6 fds 2) [
  | none ↦ some (minus_one, fds, rtc)
  | some (index, claimed) ↦
      if filetype == 0
      then (elim (rtc_open a_old rtc) [
        | none ↦ none
        | some (pos zero, rtc') ↦ some (pos index, opened fops_rtc (pos 0) index claimed, rtc')
        | some (pos (suc n), rtc') ↦ some (minus_one, claimed, rtc')
        | some (negsuc n, rtc') ↦ some (minus_one, claimed, rtc')
      ])
      else if filetype == 1
      then some (pos index, opened fops_dir (pos 0) index claimed, rtc)
      else if filetype == 2
      then some (pos index, opened fops_file (int32 inode_number) index claimed, rtc)
      else some (pos index, claimed, rtc)
]

-- sys_open. `dir_entry` and `cur_name` are the addresses of the locals; a file name without a NUL in
-- the first `fuel` bytes gives `none`.
pub sys_open :
    ℕ → Mem → ℕ → ℕ → ℕ → ℕ → ℕ → List FileDesc → Rtc → Option (ℤ × List FileDesc × Rtc × Mem)
unfolding open_entry
sys_open fuel m base filename dir_entry cur_name a_old fds rtc =
    elim (read_dentry_by_name fuel m base filename dir_entry cur_name) [
      | none ↦ none
      | some (negsuc zero, m') ↦ some (minus_one, fds, rtc, m')
      | some (r, m') ↦
          elim (open_entry (load32 m' (filetype_at dir_entry))
            (load32 m' (inode_number_at dir_entry)) a_old fds rtc) [
              | none ↦ none
              | some (index, fds', rtc') ↦ some (index, fds', rtc', m')
            ]
    ]

-- The `close` function of a table.
unfoldable pub close_with : Fops → ℕ → Rtc → Option (ℤ × Rtc)
close_with fops_rtc a_old rtc = rtc_close a_old rtc
close_with fops_error a_old rtc = some (has_error, rtc)
close_with fops_stdin a_old rtc = some (terminal_close, rtc)
close_with fops_stdout a_old rtc = some (terminal_close, rtc)
close_with fops_dir a_old rtc = some (directory_close, rtc)
close_with fops_file a_old rtc = some (file_close, rtc)

unfoldable pub sys_close : ℤ → ℕ → List FileDesc → Rtc → Option (ℤ × List FileDesc × Rtc)
unfolding close_with
sys_close (negsuc n) a_old fds rtc = some (minus_one, fds, rtc)
sys_close (pos fd) a_old fds rtc =
    let freed = set fds fd (record (desc fds fd) { flags = 0 }) in
    if ltb fd 2 || ltb (num_max_open_files - 1) fd
    then some (minus_one, fds, rtc)
    else if (desc fds fd).flags == 0
    then some (minus_one, fds, rtc)
    else (elim (close_with (desc fds fd).fops_ptr a_old rtc) [
      | none ↦ none
      | some (pos zero, rtc') ↦ some (pos 0, freed, rtc')
      | some (pos (suc n), rtc') ↦ some (minus_one, freed, rtc')
      | some (negsuc n, rtc') ↦ some (minus_one, freed, rtc')
    ])
