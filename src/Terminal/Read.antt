-- ===== src/Terminal/Read.antt =====
-- terminal_read (terminal.c): a line that has been typed reaches the program that reads it.
use ece391_os.Common.{
  ℕ, zero, suc, ◌+◌, ◌-◌, ◌≤◌, ◌<◌, ◌≡◌, refl, true, ◌∙◌, sym, ap, arith, lt→ltb, leb, ltb, ◌==◌,
  ◌&&◌, min, if◌then◌else◌, Option, none, some, List, [], ◌∷◌, ◌++◌, length, get_or, take,
  length-take, length-append, ℤ, pos, negsuc,
}
use ece391_os.Memory.{Mem, upd}
use ece391_os.Keyboard.{Console, clear_buf, handle_key_press, enter_key, key_buffer_size}
use ece391_os.Keyboard.Line.{IsReady, line, edit, handle_key_press-Edited}
use ece391_os.Keyboard.Typing.{type_keys, NoEnter, edit_all, type_keys-edit_all}

-- The loop of terminal_read, with the rounds that are left; `wanted` is num_bytes - 1. It gives the
-- count and the memory.
unfoldable pub read_keys : ℕ → List ℕ → Mem → ℕ → ℕ → ℕ → ℕ × Mem
unfolding upd
read_keys zero keys m buf wanted i = (i, m)
read_keys (suc r) keys m buf wanted i =
    let rest = read_keys r keys (upd m (buf + i) (get_or keys i 0)) buf wanted (i + 1) in
    if ltb i wanted then rest else (i, m)

-- num_bytes - 1, 0 for a bound that no count is below.
abbrev wanted_keys : ℤ → ℕ
wanted_keys (pos n) = n - 1
wanted_keys (negsuc n) = 0

-- terminal_read, on the terminal of the executing process when it is the shown one. `none`: the
-- caller spins until enter sets the flag.
unfoldable pub terminal_read : Mem → ℕ → ℤ → Console → Option (ℤ × Mem × Console)
unfolding read_keys
terminal_read m buf num_bytes c =
    let (i, m') = read_keys key_buffer_size c.key_buffer m buf (wanted_keys num_bytes) 0 in
    if c.eflag == 0 then none else some (pos i, m', clear_buf (record c { eflag = 0 }))

pub read_keys_lem :
    (r : ℕ) (keys : List ℕ) (m : Mem) (buf wanted i b : ℕ)
    → let (n, m') = read_keys r keys m buf wanted i in
      (n ≡ (if ltb i wanted then min wanted (i + r) else i))
      × (m' b ≡ (
          if leb (buf + i) b && ltb b (buf + min wanted (i + r))
          then get_or keys (b - buf) 0
          else m b))
unfolding read_keys upd
read_keys_lem zero keys m buf wanted i b = (ground arith, ground arith)
read_keys_lem (suc r) keys m buf wanted i b =
    let ih = read_keys_lem r keys (upd m (buf + i) (get_or keys i 0)) buf wanted (i + 1) b in
    let here : (b ≡ buf + i) → get_or keys (b - buf) 0 ≡ get_or keys i 0 =
      λ e. ap (λ k. get_or keys k 0) (omega arith) in
    (ground (arith, ih), ground (arith, ih, here))

get_or-take : (n j : ℕ) (xs : List ℕ) → j < n → get_or (take n xs) j 0 ≡ get_or xs j 0
get_or-take zero j xs h = absurd (omega arith)
get_or-take (suc n) j [] h = refl
get_or-take (suc n) zero (x ∷ xs) h = refl
get_or-take (suc n) (suc j) (x ∷ xs) h = get_or-take n j xs (omega arith)

count_all : (n : ℕ) → (if ltb 0 (n - 1) then min (n - 1) (0 + 127) else 0) ≡ min (n - 1) 127
count_all n = ground arith

index_inside :
    (buf n j : ℕ)
    → j + 1 < n
    → j < 127
    → (leb (buf + 0) (buf + j) && ltb (buf + j) (buf + min (n - 1) (0 + 127))) ≡ true
index_inside buf n j l l' =
    let low : leb (buf + 0) (buf + j) ≡ true = ground arith in
    rw (low, lt→ltb (buf + j) (buf + min (n - 1) (0 + 127)) (omega arith)) refl

-- A read with the flag set.
read_ready :
    (m : Mem) (buf n j : ℕ) (c : Console)
    → c.eflag ≡ 1
    → j + 1 < n
    → j < 127
    → (m' : Mem) × (terminal_read m buf (pos n) c
        ≡ some (pos (min (n - 1) 127), m', clear_buf (record c { eflag = 0 })))
      × (m' (buf + j) ≡ get_or c.key_buffer j 0)
unfolding terminal_read
read_ready m buf n j c flag l l' =
    let m' = (read_keys 127 c.key_buffer m buf (n - 1) 0).1 in
    let (count, bytes) = read_keys_lem 127 c.key_buffer m buf (n - 1) 0 (buf + j) in
    let (all, inside) : ((if ltb 0 (n - 1) then min (n - 1) (0 + 127) else 0) ≡ min (n - 1) 127)
        × ((leb (buf + 0) (buf + j) && ltb (buf + j) (buf + min (n - 1) (0 + 127))) ≡ true) =
      (count_all n, index_inside buf n j l l') in
    let at_j : buf + j - buf ≡ j = omega arith in
    let got : m' (buf + j) ≡ get_or c.key_buffer j 0 = bytes ∙ rw (inside, at_j) refl in
    (
      m',
      rw flag (ap (λ k. some (pos k, m', clear_buf (record c { eflag = 0 }))) (count ∙ all)),
      got,
    )

-- After any keys but enter, and then enter, a read returns; its count is that of the bytes asked for
-- less one, and 127 at most; the buffer has the line that the keys edit with the newline, as far as
-- the count goes; and the line is empty and the end-of-line flag clear again.
pub terminal_read-line :
    (fuel : ℕ) (ks : List ℕ) (c : Console) (m : Mem) (buf num_bytes j : ℕ)
    → 3 ≤ fuel
    → IsReady c
    → NoEnter ks
    → j + 1 < num_bytes
    → j < 127
    → j ≤ length (edit_all ks (line c))
    → (c1 c2 c3 : Console) × (m' : Mem) × (type_keys fuel ks c ≡ some c1)
      × (handle_key_press fuel enter_key c1 ≡ some c2)
      × (terminal_read m buf (pos num_bytes) c2 ≡ some (pos (min (num_bytes - 1) 127), m', c3))
      × (m' (buf + j) ≡ get_or (edit_all ks (line c) ++ (b'\n' ∷ [])) j 0)
      × (line c3 ≡ [])
      × (c3.eflag ≡ 0)
unfolding clear_buf edit
terminal_read-line fuel ks c m buf n j h v ne l l' k =
    let (c1, e1, v1, t1) = type_keys-edit_all fuel ks c h v ne in
    let (c2, e2, d) = handle_key_press-Edited fuel h c1 v1 enter_key in
    let typed : line c2 ≡ edit_all ks (line c) ++ (b'\n' ∷ []) =
      d.text ∙ ap (λ x. x ++ (b'\n' ∷ [])) t1 in
    let long : c2.key_buffer_idx ≡ length (edit_all ks (line c)) + 1 =
      sym (length-take c2.key_buffer_idx c2.key_buffer (omega (arith, d.index, d.whole)))
      ∙ (ap length typed ∙ length-append (edit_all ks (line c)) (b'\n' ∷ [])) in
    let (m', e3, got) = read_ready m buf n j c2 d.flag l l' in
    let read : get_or c2.key_buffer j 0 ≡ get_or (edit_all ks (line c) ++ (b'\n' ∷ [])) j 0 =
      sym (get_or-take c2.key_buffer_idx j c2.key_buffer (omega arith))
      ∙ ap (λ x. get_or x j 0) typed in
    (c1, c2, clear_buf (record c2 { eflag = 0 }), m', e1, e2, e3, got ∙ read, refl, refl)
