-- ===== src/Keyboard.antt =====
-- student-distrib/keyboard.c: from scan codes to keys, and the line that the keys edit.
pub mod Decode
pub mod Line
pub mod Typing
use ece391_os.Common.{
  ℕ, zero, suc, ◌+◌, ◌-◌, leb, ltb, ◌==◌, ◌&&◌, ◌||◌, not, ◌%◌, if◌then◌else◌, Option, none, some,
  List, [], ◌∷◌, get_or, set,
}
use ece391_os.Screen.{Screen, clear, set_screen_pos, backspace, enter, putc}

-- `scan2ascii`: the character of each scan code, plain and shifted.
abbrev pub scan2ascii : List (ℕ × ℕ)
scan2ascii =
    (0, 0)
    ∷ (27, 27)
    ∷ (b'1', b'!')
    ∷ (b'2', b'@')
    ∷ (b'3', b'#')
    ∷ (b'4', b'$')
    ∷ (b'5', b'%')
    ∷ (b'6', b'^')
    ∷ (b'7', b'&')
    ∷ (b'8', b'*')
    ∷ (b'9', b'(')
    ∷ (b'0', b')')
    ∷ (b'-', b'_')
    ∷ (b'=', b'+')
    ∷ (8, 8)
    ∷ (9, 9)
    ∷ (b'q', b'Q')
    ∷ (b'w', b'W')
    ∷ (b'e', b'E')
    ∷ (b'r', b'R')
    ∷ (b't', b'T')
    ∷ (b'y', b'Y')
    ∷ (b'u', b'U')
    ∷ (b'i', b'I')
    ∷ (b'o', b'O')
    ∷ (b'p', b'P')
    ∷ (b'[', b'{')
    ∷ (b']', b'}')
    ∷ (13, 13)
    ∷ (0, 0)
    ∷ (b'a', b'A')
    ∷ (b's', b'S')
    ∷ (b'd', b'D')
    ∷ (b'f', b'F')
    ∷ (b'g', b'G')
    ∷ (b'h', b'H')
    ∷ (b'j', b'J')
    ∷ (b'k', b'K')
    ∷ (b'l', b'L')
    ∷ (b';', b':')
    ∷ (39, 34)
    ∷ (b'`', b'~')
    ∷ (0, 0)
    ∷ (92, b'|')
    ∷ (b'z', b'Z')
    ∷ (b'x', b'X')
    ∷ (b'c', b'C')
    ∷ (b'v', b'V')
    ∷ (b'b', b'B')
    ∷ (b'n', b'N')
    ∷ (b'm', b'M')
    ∷ (b',', b'<')
    ∷ (b'.', b'>')
    ∷ (b'/', b'?')
    ∷ (0, 0)
    ∷ (0, 0)
    ∷ (0, 0)
    ∷ (b' ', b' ')
    ∷ []

abbrev pub num_char_handle : ℕ
num_char_handle = 58

abbrev pub key_ctrl : ℕ
key_ctrl = 0x1D

abbrev pub key_shift_left : ℕ
key_shift_left = 0x2A

abbrev pub key_shift_right : ℕ
key_shift_right = 0x36

abbrev pub key_alt : ℕ
key_alt = 0x38

abbrev pub key_caps : ℕ
key_caps = 0x3A

abbrev pub key_backspace : ℕ
key_backspace = 0x0E

abbrev pub key_l : ℕ
key_l = 0x26

abbrev pub key_enter : ℕ
key_enter = 0x1C

abbrev pub pr_conver : ℕ
pr_conver = 0x80

-- The statics ctrl_stat, shift_stat, alt_stat and caps_stat.
pub record Modifiers : Type 0 where
  pub ctrl_stat : ℕ
  pub shift_stat : ℕ
  pub alt_stat : ℕ
  pub caps_stat : ℕ

-- What an interrupt leads to: nothing, handle_key_press(keycode), or switch_terminal(term).
pub data Action : Type 0 where
  ignore : Action
  press : ℕ → Action
  switch_to : ℕ → Action

-- `if (keycode) handle_key_press(keycode)`
press_nonzero : ℕ → Action
press_nonzero keycode = if keycode == 0 then ignore else press keycode

scan_char : ℕ → ℕ → ℕ
scan_char scancode shift =
    let row = get_or scan2ascii scancode (0, 0) in if shift == 0 then row.0 else row.1

-- The caps lock turns the case of a letter.
turn_case : ℕ → ℕ → ℕ
turn_case caps keycode =
    if caps == 0
    then keycode
    else if leb b'a' keycode && leb keycode b'z'
    then keycode - 0x20
    else if leb b'A' keycode && leb keycode b'Z'
    then keycode + 0x20
    else keycode

-- The `default` case of the switch, with no key of the modifiers.
decode_key : Modifiers → ℕ → Action
decode_key k scancode =
    let regular = press_nonzero (turn_case k.caps_stat (scan_char scancode k.shift_stat)) in
    if not (k.alt_stat == 0)
    then (if scancode == key_backspace
        then press 8
        else if ltb 0x3A scancode && ltb scancode 0x3E
        then switch_to (scancode - 0x3B)
        else ignore)
    else if ltb scancode num_char_handle
    then (if not (k.ctrl_stat == 0)
        then (if scancode == key_backspace || scancode == key_enter
            then regular
            else if scancode == key_l
            then press (scan_char scancode 0 - b'a' + 1)
            else ignore)
        else regular)
    else ignore

-- keyboard_interrupt_handler up to the calls that the action stands for.
pub decode : Modifiers → ℕ → Modifiers × Action
unfolding decode_key
decode k scancode =
    if scancode == key_ctrl
    then (record k { ctrl_stat = 1 }, ignore)
    else if scancode == key_ctrl + pr_conver
    then (record k { ctrl_stat = 0 }, ignore)
    else if scancode == key_shift_left || scancode == key_shift_right
    then (record k { shift_stat = 1 }, ignore)
    else if scancode == key_shift_left + pr_conver || scancode == key_shift_right + pr_conver
    then (record k { shift_stat = 0 }, ignore)
    else if scancode == key_alt
    then (record k { alt_stat = 1 }, ignore)
    else if scancode == key_alt + pr_conver
    then (record k { alt_stat = 0 }, ignore)
    else if scancode == key_caps
    then (record k { caps_stat = if k.caps_stat == 0 then 1 else 0 }, ignore)
    else if scancode == key_caps + pr_conver
    then (k, ignore)
    else (k, decode_key k scancode)

abbrev pub ctrl_c : ℕ
ctrl_c = 3

abbrev pub ctrl_l : ℕ
ctrl_l = 12

abbrev pub bs : ℕ
bs = 8

abbrev pub enter_key : ℕ
enter_key = 13

abbrev pub key_buffer_size : ℕ
key_buffer_size = 127

-- What handle_key_press works on: the shown screen, the key buffer of the shown terminal (an array
-- of 128 bytes) with the global index, keyboard_enabled, and the end-of-line flag of the terminal
-- that the active process of the shown terminal belongs to.
pub record Console : Type 0 where
  pub screen : Screen
  pub key_buffer : List ℕ
  pub key_buffer_idx : ℕ
  pub keyboard_enabled : ℕ
  pub eflag : ℕ

-- A store to the key buffer; `none` when it falls outside the array.
store_key : ℕ → ℕ → Console → Option Console
store_key i v c = if ltb i 128 then some (record c { key_buffer = set c.key_buffer i v }) else none

abbrev with_screen : Console → Option Screen → Option Console
with_screen c none = none
with_screen c (some s) = some (record c { screen = s })

pub add_key_buff : ℕ → Console → Console
add_key_buff key c =
    if ltb c.key_buffer_idx key_buffer_size
    then record c {
      key_buffer = set c.key_buffer c.key_buffer_idx key;
      key_buffer_idx = c.key_buffer_idx + 1;
    }
    else c

-- The loop of clear_buf, with the rounds that are left.
pub clear_from : ℕ → List ℕ → ℕ → List ℕ
clear_from zero b i = b
clear_from (suc r) b i = clear_from r (set b i 0) (i + 1)

unfoldable pub clear_buf : Console → Console
clear_buf c = record c {
  key_buffer = clear_from key_buffer_size c.key_buffer 0;
  key_buffer_idx = 0;
}

-- `none`: the screen's calls ran out of fuel, or a store fell outside the key buffer.
-- The index is a uint8_t.
pub handle_key_press : ℕ → ℕ → Console → Option Console
unfolding store_key add_key_buff
handle_key_press fuel keycode c =
    if leb pr_conver keycode
    then some c
    else if keycode == ctrl_l
    then with_screen c (set_screen_pos fuel 0 0 (clear c.screen))
    else if keycode == ctrl_c
    then some c
    else if keycode == bs
    then (if ltb 0 c.key_buffer_idx
        then (elim (with_screen c (backspace fuel c.screen)) [
          | none ↦ none
          | some c1 ↦
              store_key (c1.key_buffer_idx - 1) 0
                (record c1 { key_buffer_idx = c1.key_buffer_idx - 1 })
        ])
        else some c)
    else if keycode == enter_key
    then (elim (store_key c.key_buffer_idx b'\n' (record c { eflag = 1 })) [
      | none ↦ none
      | some c1 ↦
          let c2 = record c1 { key_buffer_idx = (c1.key_buffer_idx + 1) % 256 } in
          with_screen c2 (enter fuel c2.screen)
    ])
    else if ltb c.key_buffer_idx key_buffer_size && c.keyboard_enabled == 1
    then (let c1 = add_key_buff keycode c in with_screen c1 (putc fuel keycode c1.screen))
    else some c
