-- ===== src/Keyboard/Line.antt =====
-- The key buffer of keyboard.c as a line that the keys edit.
use ece391_os.Common.{
  ℕ, suc, ◌+◌, ◌-◌, ◌%◌, ◌≤◌, ◌≡◌, refl, sym, ◌∙◌, ap, subst, not, ==→eq, arith, Bool, Bool-cases,
  inl, inr, leb, ltb, ◌==◌, ◌||◌, true, if◌then◌else◌, none, some, List, [], ◌∷◌, ◌++◌, length, set,
  take, length-set, length-take, take-set, take-suc-set, take-take,
}
use ece391_os.Screen.Cursor.{OnScreen}
use ece391_os.Screen.Returns.{clear_returns, enter_returns, putc_returns, backspace_returns}
use ece391_os.Keyboard.{
  Console, store_key, add_key_buff, handle_key_press, pr_conver, ctrl_c, ctrl_l, bs, enter_key,
}

-- The array has its 128 bytes, the index is in it, and the cursor is on the screen.
pub record IsReady (c : Console) : Type 0 where
  pub whole : length c.key_buffer ≡ 128
  pub index : c.key_buffer_idx ≤ 127
  pub enabled : c.keyboard_enabled ≡ 1
  pub screen : OnScreen c.screen

-- The line typed so far.
abbrev pub line : Console → List ℕ
line c = take c.key_buffer_idx c.key_buffer

-- What a key does to a line, on its own.
unfoldable pub edit : ℕ → List ℕ → List ℕ
edit key l =
    if leb pr_conver key || key == ctrl_l || key == ctrl_c
    then l
    else if key == bs
    then take (length l - 1) l
    else if key == enter_key
    then l ++ (b'\n' ∷ [])
    else if ltb (length l) 127
    then l ++ (key ∷ [])
    else l

-- What a key has done.
pub record Edited (key : ℕ) (c c' : Console) : Type 0 where
  pub text : line c' ≡ edit key (line c)
  pub whole : length c'.key_buffer ≡ 128
  pub index : c'.key_buffer_idx ≤ (if key == enter_key then 128 else 127)
  pub enabled : c'.keyboard_enabled ≡ 1
  pub flag : c'.eflag ≡ (if key == enter_key then 1 else c.eflag)
  pub screen : OnScreen c'.screen

module _ (fuel : ℕ) (h : 3 ≤ fuel) (c : Console) (v : IsReady c) where
  abbrev Handled : ℕ → Type 0
  Handled key = (c' : Console) × (handle_key_press fuel key c ≡ some c') × Edited key c c'

  length-line : length (line c) ≡ c.key_buffer_idx
  length-line = length-take c.key_buffer_idx c.key_buffer (omega arith)

  key_ignored : (key : ℕ) → (leb pr_conver key || key == ctrl_c) ≡ true → Handled key
  unfolding handle_key_press edit
  key_ignored key e = (
    c,
    ground arith,
    record {
      text = ground arith;
      whole = v.whole;
      index = ground arith;
      enabled = v.enabled;
      flag = ground arith;
      screen = v.screen;
    },
  )

  key_clear : Handled ctrl_l
  unfolding handle_key_press edit
  key_clear =
      let (s', eq, on) = clear_returns fuel c.screen v.screen h in
      (
        record c { screen = s' },
        ground (arith, eq),
        record {
          text = refl;
          whole = v.whole;
          index = v.index;
          enabled = v.enabled;
          flag = refl;
          screen = on;
        },
      )

  key_back : Handled bs
  unfolding handle_key_press edit store_key
  key_back = elim (Bool-cases (ltb 0 c.key_buffer_idx)) [
    | inl some_left ↦
        let (s', eq, on) = backspace_returns fuel c.screen v.screen h in
        let i = c.key_buffer_idx - 1 in
        (
          record c { screen = s'; key_buffer_idx = i; key_buffer = set c.key_buffer i 0 },
          ground (arith, eq, v.index),
          record {
            text =
                take-set i i c.key_buffer 0 (omega arith)
                ∙ sym (
                    ap (λ k. take (k - 1) (line c)) length-line
                    ∙ take-take i c.key_buffer_idx c.key_buffer (omega arith));
            whole = length-set c.key_buffer i 0 ∙ v.whole;
            index = omega (arith, v.index);
            enabled = v.enabled;
            flag = refl;
            screen = on;
          },
        )
    | inr empty ↦
        let z : c.key_buffer_idx ≡ 0 = ground arith in
        (
          c,
          ground arith,
          record {
            text = rw z;
            whole = v.whole;
            index = v.index;
            enabled = v.enabled;
            flag = refl;
            screen = v.screen;
          },
        )
  ]

  key_enter : Handled enter_key
  unfolding handle_key_press edit store_key
  key_enter =
      let (s', eq, on) = enter_returns fuel c.screen v.screen h in
      let i = c.key_buffer_idx in
      let c' : Console = record c {
        screen = s';
        key_buffer_idx = suc i;
        key_buffer = set c.key_buffer i b'\n';
        eflag = 1;
      } in
      let next : (i + 1) % 256 ≡ suc i = omega (arith, v.index) in
      (
        c',
        ground (arith, eq, v.index, next),
        record {
          text = take-suc-set i c.key_buffer b'\n' (omega (arith, v.whole, v.index));
          whole = length-set c.key_buffer i b'\n' ∙ v.whole;
          index = omega (arith, v.index);
          enabled = v.enabled;
          flag = refl;
          screen = on;
        },
      )

  -- A key that none of the cases above names.
  abbrev is_plain : ℕ → Bool
  is_plain key =
      not (leb pr_conver key || key == ctrl_c || key == ctrl_l || key == bs || key == enter_key)

  key_plain : (key : ℕ) → is_plain key ≡ true → Handled key
  unfolding handle_key_press edit add_key_buff
  key_plain key e = elim (Bool-cases (ltb c.key_buffer_idx 127)) [
    | inl room ↦
        let (s', eq, on) = putc_returns fuel key c.screen v.screen h in
        let i = c.key_buffer_idx in
        let c' : Console = record c {
          screen = s';
          key_buffer_idx = i + 1;
          key_buffer = set c.key_buffer i key;
        } in
        let next : i + 1 ≡ suc i = omega arith in
        (
          c',
          ground (arith, eq, v.enabled),
          record {
            text =
                ap (λ k. take k (set c.key_buffer i key)) next
                ∙ take-suc-set i c.key_buffer key (omega (arith, v.whole, v.index))
                ∙ ground (arith, length-line);
            whole = length-set c.key_buffer i key ∙ v.whole;
            index = ground arith;
            enabled = v.enabled;
            flag = ground arith;
            screen = on;
          },
        )
    | inr full ↦ (
      c,
      ground arith,
      record {
        text = ground (arith, length-line);
        whole = v.whole;
        index = ground (arith, v.index);
        enabled = v.enabled;
        flag = ground arith;
        screen = v.screen;
      },
    )
  ]

  -- With the buffer ready and fuel for the screen, handle_key_press returns for every key, and the
  -- key has edited the line as `edit` describes, set the end-of-line flag exactly when it is enter,
  -- and kept the buffer whole and the cursor on the screen.
  pub handle_key_press-Edited :
      (key : ℕ) → (c' : Console) × (handle_key_press fuel key c ≡ some c') × Edited key c c'
  handle_key_press-Edited key = elim (Bool-cases (is_plain key)) [
    | inl plain ↦ key_plain key plain
    | inr special ↦ elim (Bool-cases (leb pr_conver key || key == ctrl_c)) [
      | inl none_done ↦ key_ignored key none_done
      | inr other ↦ elim (Bool-cases (key == ctrl_l)) [
        | inl l ↦ subst Handled (sym (==→eq key ctrl_l l)) key_clear
        | inr not_l ↦ elim (Bool-cases (key == bs)) [
          | inl b ↦ subst Handled (sym (==→eq key bs b)) key_back
          | inr not_b ↦ let e : key ≡ enter_key = ground arith in subst Handled (sym e) key_enter
        ]
      ]
    ]
  ]

-- The index 128, which enter leaves on a full line, is not in the buffer: a second enter before the
-- line has been read stores behind the array.
pub enter_overruns :
    (fuel : ℕ) (c : Console) → c.key_buffer_idx ≡ 128 → handle_key_press fuel enter_key c ≡ none
unfolding handle_key_press store_key
enter_overruns fuel c e = ground arith
