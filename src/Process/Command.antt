-- ===== src/Process/Command.antt =====
-- How execute (syscalls.c) takes a command line apart: the name of the program and its argument.
use ece391_os.Common.{
  ℕ, zero, suc, ◌+◌, ◌-◌, ◌%◌, ◌==◌, ◌||◌, Bool, if◌then◌else◌, Option, none, some,
}
use ece391_os.Memory.{Mem, upd, copy_up}

-- The first loop of the parse; the index is a uint8_t. `none`: out of fuel.
unfoldable pub skip_spaces : ℕ → Mem → ℕ → ℕ → Option ℕ
skip_spaces zero m command i = none
skip_spaces (suc fuel) m command i =
    let rest = skip_spaces fuel m command ((i + 1) % 256) in
    if m (command + i) == b' ' then rest else some i

-- A character that ends a word: a space, ASCII_NL or NUL.
abbrev pub ends_word : ℕ → Bool
ends_word c = c == b' ' || c == b'\n' || c == 0

-- The loops that look for the end of a word.
unfoldable pub word_end : ℕ → Mem → ℕ → ℕ → Option ℕ
word_end zero m command i = none
word_end (suc fuel) m command i =
    let rest = word_end fuel m command ((i + 1) % 256) in
    if ends_word (m (command + i)) then some i else rest

-- The parse, from the command at `command` to the two local arrays. The name's NUL is stored at
-- `cmd_end`, whatever number of spaces stood before the name.
unfoldable pub parse_command : ℕ → Mem → ℕ → ℕ → ℕ → Option Mem
unfolding skip_spaces word_end upd
parse_command fuel m command parsed_cmd arg = elim (skip_spaces fuel m command 0) [
  | none ↦ none
  | some start ↦ elim (word_end fuel m command start) [
    | none ↦ none
    | some cmd_end ↦
        let m1 =
          upd (copy_up (cmd_end - start) m parsed_cmd (command + start)) (parsed_cmd + cmd_end) 0 in
        let next = (cmd_end + 1) % 256 in
        elim (word_end fuel m1 command next) [
          | none ↦ none
          | some arg_end ↦
              some (upd (copy_up (arg_end - next) m1 arg (command + next)) (arg + arg_end - next) 0)
        ]
  ]
]
