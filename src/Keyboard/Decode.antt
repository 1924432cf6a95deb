-- ===== src/Keyboard/Decode.antt =====
-- Which keys come out of the scan codes of keyboard.c.
use ece391_os.Common.{
  ℕ, ◌-◌, ◌≤◌, ◌<◌, ◌≡◌, ◌≢◌, refl, arith, Bool, true, leb, ltb, ◌==◌, ◌&&◌, not, if◌then◌else◌,
  get_or, all_below, all_below_sound,
}
use ece391_os.Keyboard.{
  Modifiers, ignore, press, switch_to, scan2ascii, scan_char, turn_case, press_nonzero, decode,
  num_char_handle, key_ctrl, key_shift_left, key_backspace, key_l, key_enter, pr_conver,
}

-- Each status is 0 or 1.
pub record AreFlags (k : Modifiers) : Type 0 where
  pub ctrl : k.ctrl_stat ≤ 1
  pub shift : k.shift_stat ≤ 1
  pub alt : k.alt_stat ≤ 1
  pub caps : k.caps_stat ≤ 1

-- Whatever key is pressed or released, each status stays 0 or 1.
pub decode-AreFlags : (k : Modifiers) (scancode : ℕ) → AreFlags k → AreFlags (decode k scancode).0
unfolding decode
decode-AreFlags k scancode f = ground arith

-- The plain character of a scan code, and that it is a lower case letter.
unfoldable pub letter : ℕ → ℕ
letter scancode = (get_or scan2ascii scancode (0, 0)).0

unfoldable pub is_letter : ℕ → Bool
unfolding letter
is_letter scancode = leb b'a' (letter scancode) && leb (letter scancode) b'z'

-- The key of a letter with neither ctrl nor alt.
abbrev cased : ℕ → ℕ → ℕ → ℕ
cased shift caps scancode = if shift == caps then letter scancode else letter scancode - 0x20

abbrev letter_row : ℕ → ℕ → ℕ → Bool
letter_row shift caps scancode =
    if is_letter scancode
    then turn_case caps (scan_char scancode shift) == cased shift caps scancode
      && not (cased shift caps scancode == 0)
      && ltb 0x0F scancode
      && not (scancode == key_ctrl)
      && ltb scancode 0x34
      && not (scancode == key_shift_left)
    else true

letter_table :
    all_below 2 (λ shift. all_below 2 (λ caps. all_below 58 (letter_row shift caps))) ≡ true
unfolding all_below turn_case scan_char is_letter
letter_table = refl

letter_facts :
    (shift caps scancode : ℕ)
    → shift ≤ 1
    → caps ≤ 1
    → scancode < 58
    → is_letter scancode ≡ true
    → letter_row shift caps scancode ≡ true
letter_facts shift caps scancode h k l i =
    all_below_sound 58 (letter_row shift caps) scancode
      (all_below_sound 2 (λ c. all_below 58 (letter_row shift c)) caps
        (all_below_sound 2 (λ s. all_below 2 (λ c. all_below 58 (letter_row s c))) shift
          letter_table (omega arith))
        (omega arith))
      l

-- With neither ctrl nor alt down, the key of a letter is upper case exactly when one of shift and
-- caps lock is on.
pub decode-letter :
    (k : Modifiers) (scancode : ℕ)
    → AreFlags k
    → k.ctrl_stat ≡ 0
    → k.alt_stat ≡ 0
    → scancode < num_char_handle
    → is_letter scancode ≡ true
    → decode k scancode
      ≡ (k, press (if k.shift_stat == k.caps_stat then letter scancode else letter scancode - 0x20))
unfolding decode press_nonzero
decode-letter k scancode f c a l i =
    ground (arith, letter_facts k.shift_stat k.caps_stat scancode f.shift f.caps l i)

-- The release of a key is never taken for a key.
pub decode_release :
    (k : Modifiers) (scancode : ℕ) → pr_conver ≤ scancode → (decode k scancode).1 ≡ ignore
unfolding decode
decode_release k scancode h = ground arith

-- Only the terminals 0, 1 and 2 are switched to, and only with alt down.
pub decode-switch :
    (k : Modifiers) (scancode t : ℕ)
    → (decode k scancode).1 ≡ switch_to t
    → (t < 3) × (k.alt_stat ≢ 0)
unfolding decode press_nonzero
decode-switch k scancode t h = ground arith

plain_key :
    (caps shift : ℕ)
    → (turn_case caps (scan_char key_backspace shift) ≡ 8)
      × (turn_case caps (scan_char key_enter shift) ≡ 13)
unfolding turn_case scan_char
plain_key caps shift = ground arith

l_char : scan_char key_l 0 ≡ b'l'
unfolding scan_char
l_char = refl

-- With ctrl down and alt not, only backspace, enter and L come out, as the keys 8, 13 and 12.
pub decode_ctrl :
    (k : Modifiers) (scancode : ℕ)
    → k.ctrl_stat ≢ 0
    → k.alt_stat ≡ 0
    → (decode k scancode).1 ≡ (
        if scancode == key_backspace
        then press 8
        else if scancode == key_enter
        then press 13
        else if scancode == key_l
        then press 12
        else ignore)
unfolding decode press_nonzero
decode_ctrl k scancode c a = ground (arith, plain_key k.caps_stat k.shift_stat, l_char)
