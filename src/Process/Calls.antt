-- ===== src/Process/Calls.antt =====
-- The system calls of syscalls.c that go through a descriptor's table, and vidmap. What a table's
-- `read` or `write` does to the rest of the state is an argument.
use ece391_os.Common.{
  ℕ, ◌-◌, none, ltb, ◌==◌, ◌||◌, if◌then◌else◌, Option, some, List, ℤ, pos, negsuc, minus_one,
}
use ece391_os.Memory.{Mem, store32}
use ece391_os.CString.{strcpy}
use ece391_os.Paging.{Paging, table_remap}
use ece391_os.Terminal.{addr_136mb, video_addr}
use ece391_os.Process.Descriptors.{
  Fops, fops_stdin, fops_stdout, fops_rtc, fops_dir, fops_file, fops_error, has_error, FileDesc,
  desc, num_max_open_files,
}

-- A read or write function: of the table, with the descriptor, the buffer's address and the count.
abbrev pub Transfer {ℓ} : Type ℓ → Type ℓ
Transfer S = Fops → ℕ → ℕ → ℤ → S → Option (ℤ × S)

-- Writes to a directory and to a file are refused.
abbrev pub directory_write : ℤ
directory_write = minus_one

abbrev pub file_write : ℤ
file_write = minus_one

-- The `read` and the `write` of each table.
module _ {ℓ} {S : Type ℓ} where
  unfoldable pub table_read :
      (terminal_read rtc_read directory_read file_read : ℕ → ℕ → ℤ → S → Option (ℤ × S))
      → Transfer S
  table_read terminal rtc directory file fops_stdin fd buf nbytes s = terminal fd buf nbytes s
  table_read terminal rtc directory file fops_stdout fd buf nbytes s = some (has_error, s)
  table_read terminal rtc directory file fops_rtc fd buf nbytes s = rtc fd buf nbytes s
  table_read terminal rtc directory file fops_dir fd buf nbytes s = directory fd buf nbytes s
  table_read terminal rtc directory file fops_file fd buf nbytes s = file fd buf nbytes s
  table_read terminal rtc directory file fops_error fd buf nbytes s = some (has_error, s)

  unfoldable pub table_write :
      (terminal_write rtc_write : ℕ → ℕ → ℤ → S → Option (ℤ × S)) → Transfer S
  table_write terminal rtc fops_stdin fd buf nbytes s = some (has_error, s)
  table_write terminal rtc fops_stdout fd buf nbytes s = terminal fd buf nbytes s
  table_write terminal rtc fops_rtc fd buf nbytes s = rtc fd buf nbytes s
  table_write terminal rtc fops_dir fd buf nbytes s = some (directory_write, s)
  table_write terminal rtc fops_file fd buf nbytes s = some (file_write, s)
  table_write terminal rtc fops_error fd buf nbytes s = some (has_error, s)

  -- system_call_handler of interrupts.S: a number outside 1 to 8 is refused, and `call` is what the
  -- entry of the jump table does.
  unfoldable pub system_call : (ℕ → S → Option (ℤ × S)) → ℤ → S → Option (ℤ × S)
  system_call call (negsuc n) s = some (minus_one, s)
  system_call call (pos n) s = if ltb n 1 || ltb 8 n then some (minus_one, s) else call n s

unfoldable pub sys_read {ℓ} :
    {S : Type ℓ} → Transfer S → ℤ → ℕ → ℤ → List FileDesc → S → Option (ℤ × S)
sys_read read (negsuc n) buf nbytes fds s = some (minus_one, s)
sys_read read (pos fd) buf nbytes fds s =
    if ltb (num_max_open_files - 1) fd || buf == 0
    then some (minus_one, s)
    else if (desc fds fd).flags == 0
    then some (minus_one, s)
    else read (desc fds fd).fops_ptr fd buf nbytes s

-- `fds` is the table of the process of the executing terminal.
unfoldable pub sys_write {ℓ} :
    {S : Type ℓ} → Transfer S → ℤ → ℕ → ℤ → List FileDesc → S → Option (ℤ × S)
sys_write write (negsuc n) buf nbytes fds s = some (minus_one, s)
sys_write write (pos fd) buf nbytes fds s =
    if ltb (num_max_open_files - 1) fd || buf == 0
    then some (minus_one, s)
    else if (desc fds fd).flags == 0
    then some (minus_one, s)
    else write (desc fds fd).fops_ptr fd buf nbytes s

-- vidmap: the address of the page goes to `screen_start`.
unfoldable pub vidmap : ℕ → Mem → Paging → ℤ × Mem × Paging
vidmap screen_start m p =
    if screen_start == 0 || screen_start == 0x400000
    then (minus_one, m, p)
    else (pos addr_136mb, store32 m screen_start addr_136mb, table_remap addr_136mb video_addr p)

-- getargs, with the address of the process's argbuf. `none`: no NUL in the first `fuel` bytes of it.
unfoldable pub getargs : ℕ → Mem → ℕ → ℕ → Option (ℤ × Mem)
getargs fuel m buf argbuf =
    if buf == 0
    then some (minus_one, m)
    else if m argbuf == 0
    then some (minus_one, m)
    else (elim (strcpy fuel m buf argbuf) [ none ↦ none | some m' ↦ some (pos 0, m') ])

-- set_handler and sigreturn are not there.
abbrev pub set_handler : ℤ
set_handler = minus_one

abbrev pub sigreturn : ℤ
sigreturn = minus_one
