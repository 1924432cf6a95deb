-- ===== src/Emulation.antt =====
-- The system calls on a host with files of its own, fish/ece391emulate.c (syscalls/ece391emulate.c is
-- a copy). The host's calls are arguments, and so are the addresses of argv and of a directory entry's
-- name.
pub mod Arguments
use ece391_os.Common.{
  ℕ, zero, suc, ◌+◌, ◌-◌, ◌*◌, Bool, true, false, ltb, leb, ◌==◌, ◌&&◌, ◌||◌, not, if◌then◌else◌,
  Option, none, some, List, [], ◌∷◌, ◌++◌, ℤ, pos, negsuc, minus_one, is_zero, int32, ◌>>=◌,
}
use ece391_os.Memory.{Mem, upd}
use ece391_os.User.{ece391_strlen, ece391_strcpy, ece391_strcmp}

-- The end of ece391_getargs.
unfoldable pub end_args : Mem → ℕ → ℕ → ℤ × Mem
unfolding upd
end_args m buf nbytes = if ltb nbytes 1 then (minus_one, m) else (pos 0, upd m buf 0)

-- The loop of ece391_getargs over the addresses argv[idx] that are left. The room that is left does
-- not get below 0.
unfoldable pub getargs_from : ℕ → List ℕ → Mem → ℕ → ℕ → Option (ℤ × Mem)
unfolding end_args upd
getargs_from chars [] m buf nbytes = some (end_args m buf nbytes)
getargs_from chars (arg ∷ []) m buf nbytes = do
  len ← ece391_strlen chars m arg
  if ltb nbytes len
      then some (minus_one, m)
      else do m1 ← ece391_strcpy chars m buf arg; some (end_args m1 (buf + len) (nbytes - len))
getargs_from chars (arg ∷ next ∷ args) m buf nbytes = do
  len ← ece391_strlen chars m arg
  if ltb nbytes len then some (minus_one, m) else do
    m1 ← ece391_strcpy chars m buf arg
    if ltb (nbytes - len) 1
        then some (minus_one, m1)
        else getargs_from chars (next ∷ args) (upd m1 (buf + len) 32) (buf + len + 1)
            (nbytes - len - 1)

-- ece391_getargs, on the addresses in argv behind the program's name.
pub emulated_getargs : ℕ → List ℕ → Mem → ℕ → ℕ → Option (ℤ × Mem)
unfolding getargs_from
emulated_getargs chars args m buf nbytes = getargs_from chars args m buf nbytes

-- The loop of ece391_read that pads a name, with the rounds that are left.
unfoldable pub pad_name : ℕ → Mem → ℕ → ℕ → ℕ → ℕ × Mem
unfolding upd
pad_name zero m to copied nbytes = (copied, m)
pad_name (suc r) m to copied nbytes =
    let rest = pad_name r (upd m to 0) (to + 1) (copied + 1) nbytes in
    if ltb copied nbytes && ltb copied 32 then rest else (copied, m)

-- The loop that copies a name. `copied` is 32 less the rounds, so that they do not run out.
unfoldable pub copy_name : ℕ → Mem → ℕ → ℕ → ℕ → ℕ → ℕ × Mem
unfolding upd pad_name
copy_name zero m to from copied nbytes = (copied, m)
copy_name (suc r) m to from copied nbytes =
    let m' = upd m to (m from) in
    let rest = copy_name r m' (to + 1) (from + 1) (copied + 1) nbytes in
    if m from == 0
    then pad_name (32 - copied) m to copied nbytes
    else if copied + 1 == nbytes
    then (nbytes, m')
    else if copied + 1 == 32
    then (32, m')
    else rest

-- dir_fd, and whether `dir` is not NULL.
pub record Directory : Type 0 where
  pub dir_fd : ℤ
  pub dir : Bool

abbrev same_fd : ℤ → ℤ → Bool
same_fd (pos a) (pos b) = a == b
same_fd (negsuc a) (negsuc b) = a == b
same_fd a b = false

-- NULL == dir || dir_fd != fd
abbrev pub is_other : Directory → ℤ → Bool
is_other d fd = not d.dir || not (same_fd d.dir_fd fd)

-- `host_read` is the host's call, and `entry` the address of the name that readdir gives, if any.
pub emulated_read :
    (ℤ → ℕ → ℕ → Mem → Option (ℤ × Mem)) → Option ℕ → Directory → ℤ → ℕ → ℕ → Mem → Option (ℤ × Mem)
unfolding copy_name
emulated_read host_read entry d fd buf nbytes m =
    if is_other d fd then host_read fd buf nbytes m else (elim entry [
      | none ↦ some (pos 0, m)
      | some name ↦ let (k, m') = copy_name 32 m buf name 0 nbytes in some (pos k, m')
    ])

pub emulated_write : (ℤ → ℕ → ℤ → Option ℤ) → Directory → ℤ → ℕ → ℤ → Option ℤ
emulated_write host_write d fd buf nbytes =
    if is_other d fd then host_write fd buf nbytes else some minus_one

pub emulated_close : (ℤ → Option ℤ) → Directory → ℤ → Option (ℤ × Directory)
emulated_close host_close d fd =
    if is_other d fd
    then (do r ← host_close fd; some (r, d))
    else some (pos 0, record { dir_fd = minus_one; dir = false })

-- What the host's open gives: an error stands in the last 16383 numbers of 32 bits.
abbrev host_result : ℕ → ℤ
host_result rval = if ltb 0xFFFFC000 rval then minus_one else int32 rval

-- ece391_open: "." is opened as a directory, with the descriptor that the host gives for /dev/null;
-- `opened` says whether opendir has given a directory.
pub emulated_open : ℕ → Mem → ℕ → (ℕ → Option ℕ) → Bool → ℤ → ℕ → Directory → Option (ℤ × Directory)
emulated_open chars m dot host_open opened null_fd filename d = do
  r ← ece391_strcmp chars m filename dot
  if is_zero r
      then some (null_fd, record { dir_fd = null_fd; dir = opened })
      else do rval ← host_open filename; some (host_result rval, d)

-- The first character of a word's end: NUL, a space or a newline. `none`: not among `fuel` bytes.
unfoldable pub scan_word : ℕ → Mem → ℕ → Option ℕ
scan_word zero m scan = none
scan_word (suc fuel) m scan =
    let rest = scan_word fuel m (scan + 1) in
    if m scan == 0 || (m scan == 32 || m scan == 10) then some scan else rest

unfoldable pub scan_spaces : ℕ → Mem → ℕ → Option ℕ
scan_spaces zero m scan = none
scan_spaces (suc fuel) m scan =
    let rest = scan_spaces fuel m (scan + 1) in if m scan == 32 then rest else some scan

-- The loop of ece391_execute over the arguments: their addresses, each ended by a NUL.
unfoldable pub split_args : ℕ → ℕ → Mem → ℕ → List ℕ → Option (List ℕ × Mem)
unfolding scan_word scan_spaces upd
split_args fuel zero m scan args = none
split_args fuel (suc rounds) m scan args = do
  start ← scan_spaces fuel m scan
  if m start == 0 || m start == 10 then some (args, upd m start 0) else do
    end ← scan_word fuel m start
    let last = m end == 0
    split_args fuel rounds (if last then m else upd m end 0) (if last then end else end + 1)
        (args ++ (start ∷ []))

-- The array args of ece391_execute; `buf` is the local array, and the command is too long if `none`
-- stands in the result.
pub split_command : ℕ → Mem → ℕ → ℕ → Option (Option (List ℕ) × Mem)
unfolding split_args upd
split_command fuel m buf command = do
  len ← ece391_strlen fuel m command
  if ltb 1023 len then some (none, m) else do
    m1 ← ece391_strcpy fuel (upd (upd m buf 46) (buf + 1) 47) (buf + 2) command
    end ← scan_word fuel m1 (buf + 2)
    if m1 end == 0 then some (some (buf ∷ []), m1) else do
      out ← split_args fuel fuel (upd m1 end 0) (end + 1) (buf ∷ [])
      some (some out.0, out.1)

-- How the host says that a child has ended, and what ece391_execute makes of it.
pub data Ended : Type 0 where
  exited : ℕ → Ended
  signalled : ℕ → Ended

pub exit_status : Ended → ℤ
exit_status (exited status) = pos status
exit_status (signalled n) = if n == 9 then minus_one else pos 256
