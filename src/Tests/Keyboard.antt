-- ===== src/Tests/Keyboard.antt =====
-- Keys of keyboard.c, and the line that terminal_read hands out.
use ece391_os.Common.{ℕ, ◌≡◌, refl, arith, none, some, List, [], ◌∷◌, replicate, pos}
use ece391_os.Memory.{Mem}
use ece391_os.Keyboard.{Modifiers, Console, decode, press, key_l, handle_key_press, enter_key}
use ece391_os.Keyboard.Decode.{AreFlags, letter, is_letter, decode-letter, decode_ctrl}
use ece391_os.Keyboard.Line.{IsReady, Edited, line, edit, handle_key_press-Edited, enter_overruns}
use ece391_os.Keyboard.Typing.{type_keys, edit_all, NoEnter, type_keys-edit_all}
use ece391_os.Terminal.Read.{terminal_read, terminal_read-line}
use ece391_os.Tests.Screen.{top_left, top_left-OnScreen}

abbrev caps_on : Modifiers
caps_on = record { ctrl_stat = 0; shift_stat = 0; alt_stat = 0; caps_stat = 1 }

caps_on-AreFlags : AreFlags caps_on
caps_on-AreFlags = record {
  ctrl = omega arith;
  shift = omega arith;
  alt = omega arith;
  caps = omega arith;
}

-- The key of the letter a with caps lock on.
decode-letter_run : decode caps_on 0x1E ≡ (caps_on, press b'A')
unfolding letter is_letter
decode-letter_run = decode-letter caps_on 0x1E caps_on-AreFlags refl refl (omega arith) refl

abbrev ctrl_down : Modifiers
ctrl_down = record { ctrl_stat = 1; shift_stat = 0; alt_stat = 0; caps_stat = 0 }

decode_ctrl_run : (decode ctrl_down key_l).1 ≡ press 12
decode_ctrl_run = decode_ctrl ctrl_down key_l (omega arith) refl

abbrev console : Console
console = record {
  screen = top_left;
  key_buffer = replicate 128 0;
  key_buffer_idx = 0;
  keyboard_enabled = 1;
  eflag = 0;
}

console-IsReady : IsReady console
console-IsReady = record {
  whole = refl;
  index = omega arith;
  enabled = refl;
  screen = top_left-OnScreen;
}

handle_key_press-Edited_example :
    (c' : Console) × (handle_key_press 3 b'x' console ≡ some c') × Edited b'x' console c'
handle_key_press-Edited_example =
    handle_key_press-Edited 3 (omega arith) console console-IsReady b'x'

-- l, d, backspace, s.
abbrev keys : List ℕ
keys = b'l' ∷ b'd' ∷ 8 ∷ b's' ∷ []

keys-NoEnter : NoEnter keys
keys-NoEnter = (omega arith, (omega arith, (omega arith, (omega arith, tt))))

edit_all-keys : edit_all keys [] ≡ b'l' ∷ b's' ∷ []
unfolding edit_all edit
edit_all-keys = refl

type_keys-edit_all_example :
    (c' : Console) × (type_keys 3 keys console ≡ some c')
    × IsReady c'
    × (line c' ≡ b'l' ∷ b's' ∷ [])
unfolding edit_all edit
type_keys-edit_all_example =
    type_keys-edit_all 3 keys console (omega arith) console-IsReady keys-NoEnter

-- The third byte that a read of 10 bytes leaves is the newline.
terminal_read-line_example :
    (c1 c2 c3 : Console) × (m' : Mem) × (type_keys 3 keys console ≡ some c1)
    × (handle_key_press 3 enter_key c1 ≡ some c2)
    × (terminal_read (λ b. 0) 500 (pos 10) c2 ≡ some (pos 9, m', c3))
    × (m' 502 ≡ b'\n')
    × (line c3 ≡ [])
    × (c3.eflag ≡ 0)
unfolding edit_all edit
terminal_read-line_example =
    terminal_read-line 3 keys console (λ b. 0) 500 10 2 (omega arith) console-IsReady keys-NoEnter
      (omega arith) (omega arith) (omega arith)

abbrev full : Console
full = record console { key_buffer_idx = 128 }

enter_overruns_run : handle_key_press 3 enter_key full ≡ none
enter_overruns_run = enter_overruns 3 full refl
