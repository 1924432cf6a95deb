-- ===== src/Process/Parse.antt =====
-- The parse of a command line in execute (syscalls.c), against the words of the line.
use ece391_os.Common.{
  ℕ, zero, suc, ◌+◌, ◌-◌, ◌%◌, ◌≤◌, ◌<◌, ◌≡◌, ◌⊎◌, refl, arith, leb, ltb, ◌&&◌, ◌==◌, true, false,
  if◌then◌else◌, Bool-cases, ltb→lt, some, inl, inr, ◌∙◌,
}
use ece391_os.Memory.{Mem, upd, copy_up}
use ece391_os.Memory.Copy.{copy_up_lem}
use ece391_os.Process.Command.{skip_spaces, word_end, ends_word, parse_command}

-- A word of `k` characters from `i` on.
pub record IsWord (m : Mem) (command i k : ℕ) : Type 0 where
  pub chars : (j : ℕ) → j < k → ends_word (m (command + (i + j))) ≡ false
  pub ended : ends_word (m (command + (i + k))) ≡ true
  pub short : i + k < 255

word_end_lem :
    (fuel : ℕ) (m : Mem) (command i k d : ℕ)
    → IsWord m command i k
    → d ≤ k
    → k < d + fuel
    → word_end fuel m command (i + d) ≡ some (i + k)
unfolding word_end
word_end_lem zero m command i k d w h l = absurd (omega arith)
word_end_lem (suc fuel) m command i k d w h l =
    let next : (i + d + 1) % 256 ≡ i + (d + 1) = omega (arith, w.short) in
    let assoc : command + (i + d) ≡ command + (i + d) = refl in
    elim (Bool-cases (ltb d k)) [
      | inl more ↦
          rw (w.chars d (ltb→lt d k more), next)
            (word_end_lem fuel m command i k (d + 1) w (ground arith) (omega arith))
      | inr done ↦ let e : d ≡ k = ground arith in rw (e, w.ended) refl
    ]

-- Blocks of 256 bytes that do not meet.
abbrev pub Clear : ℕ → ℕ → Type 0
Clear a b = (a + 256 ≤ b) ⊎ (b + 256 ≤ a)

-- The memory with the name stored.
name_stored : Mem → ℕ → ℕ → ℕ → Mem
unfolding upd
name_stored m command parsed_cmd k =
    upd (copy_up (k - 0) m parsed_cmd (command + 0)) (parsed_cmd + k) 0

name_stored_lem :
    (m : Mem) (command parsed_cmd k b : ℕ)
    → Clear parsed_cmd command
    → k < 255
    → name_stored m command parsed_cmd k b ≡ (
        if b == parsed_cmd + k
        then 0
        else if leb parsed_cmd b && ltb b (parsed_cmd + k)
        then m (command + (b - parsed_cmd))
        else m b)
unfolding name_stored upd
name_stored_lem m command parsed_cmd k b c h =
    let same : command + 0 ≡ command = omega arith in
    rw same (ground (arith, copy_up_lem k m parsed_cmd command b))

IsWord-kept :
    (m : Mem) (command parsed_cmd k i a : ℕ)
    → Clear parsed_cmd command
    → k < 255
    → IsWord m command i a
    → IsWord (name_stored m command parsed_cmd k) command i a
IsWord-kept m command parsed_cmd k i a c h w = record {
  chars = λ j l. rw (kept (i + j) (omega (arith, w.short))) (w.chars j l);
  ended = rw (kept (i + a) (omega (arith, w.short))) w.ended;
  short = w.short;
}
  where
    kept : (n : ℕ) → n < 256 → name_stored m command parsed_cmd k (command + n) ≡ m (command + n)
    kept n l = name_stored_lem m command parsed_cmd k (command + n) c h ∙ ground arith

no_spaces :
    (fuel : ℕ) (m : Mem) (command k : ℕ)
    → 1 ≤ fuel
    → 1 ≤ k
    → IsWord m command 0 k
    → skip_spaces fuel m command 0 ≡ some 0
unfolding skip_spaces
no_spaces zero m command k f p w = absurd (omega arith)
no_spaces (suc fuel) m command k f p w = ground (arith, w.chars 0)

word_found :
    (fuel : ℕ) (m : Mem) (command i k start stop : ℕ)
    → IsWord m command i k
    → start ≡ i
    → stop ≡ i + k
    → k < fuel
    → word_end fuel m command start ≡ some stop
word_found fuel m command i k start stop w e e' h =
    let first : start ≡ i + 0 = omega arith in
    rw (first, e') (word_end_lem fuel m command i k 0 w (omega arith) (omega arith))

argument_stored : Mem → ℕ → ℕ → ℕ → ℕ → Mem
unfolding upd
argument_stored m command arg i a = upd (copy_up a m arg (command + i)) (arg + a) 0

argument_stored_lem :
    (m : Mem) (command arg i a b : ℕ)
    → Clear arg command
    → i + a < 255
    → argument_stored m command arg i a b ≡ (
        if b == arg + a
        then 0
        else if leb arg b && ltb b (arg + a)
        then m (command + i + (b - arg))
        else m b)
unfolding argument_stored upd
argument_stored_lem m command arg i a b c h = ground (arith, copy_up_lem a m arg (command + i) b)

-- What is read back of the name and of the argument.
name_read :
    (m : Mem) (command parsed_cmd arg k a i : ℕ)
    → Clear parsed_cmd command
    → Clear arg command
    → Clear arg parsed_cmd
    → k + 1 + a < 255
    → i ≤ k
    → argument_stored (name_stored m command parsed_cmd k) command arg (k + 1) a (parsed_cmd + i)
      ≡ (if i == k then 0 else m (command + i))
name_read m command parsed_cmd arg k a i c1 c2 c3 h q =
    let m1 = name_stored m command parsed_cmd k in
    let at_i : parsed_cmd + i - parsed_cmd ≡ i = omega arith in
    let (above, below) : ((parsed_cmd + i == arg + a) ≡ false)
        × ((leb arg (parsed_cmd + i) && ltb (parsed_cmd + i) (arg + a)) ≡ false) =
      ground arith in
    argument_stored_lem m1 command arg (k + 1) a (parsed_cmd + i) c2 h
    ∙ rw (above, below)
        (name_stored_lem m command parsed_cmd k (parsed_cmd + i) c1 (omega arith)
          ∙ rw at_i (ground arith))

argument_read :
    (m : Mem) (command parsed_cmd arg k a j : ℕ)
    → Clear parsed_cmd command
    → Clear arg command
    → k + 1 + a < 255
    → j ≤ a
    → argument_stored (name_stored m command parsed_cmd k) command arg (k + 1) a (arg + j)
      ≡ (if j == a then 0 else m (command + (k + 1 + j)))
argument_read m command parsed_cmd arg k a j c1 c2 h r =
    let m1 = name_stored m command parsed_cmd k in
    let at_j : arg + j - arg ≡ j = omega arith in
    let place : command + (k + 1) + j ≡ command + (k + 1 + j) = omega arith in
    argument_stored_lem m1 command arg (k + 1) a (arg + j) c2 h
    ∙ rw (at_j, place)
        (ground (arith, name_stored_lem m command parsed_cmd k (command + (k + 1 + j)) c1))

-- A command that starts with a name of `k` characters, with a space, a line break or a NUL behind
-- it and then an argument of `a` characters: the parse returns, with the name and a NUL in the one
-- array and the argument and a NUL in the other, if the arrays and the command are 256 bytes apart
-- and the two words have less than 254 characters together.
pub parse_command_lem :
    (fuel : ℕ) (m : Mem) (command parsed_cmd arg k a i j : ℕ)
    → 256 ≤ fuel
    → 1 ≤ k
    → IsWord m command 0 k
    → IsWord m command (k + 1) a
    → Clear parsed_cmd command
    → Clear arg command
    → Clear arg parsed_cmd
    → i ≤ k
    → j ≤ a
    → (m' : Mem) × (parse_command fuel m command parsed_cmd arg ≡ some m')
      × (m' (parsed_cmd + i) ≡ (if i == k then 0 else m (command + i)))
      × (m' (arg + j) ≡ (if j == a then 0 else m (command + (k + 1 + j))))
unfolding parse_command name_stored argument_stored upd
parse_command_lem fuel m command parsed_cmd arg k a i j f p w v c1 c2 c3 q r =
    let m1 = name_stored m command parsed_cmd k in
    let start = no_spaces fuel m command k (omega arith) p w in
    let name = word_found fuel m command 0 k 0 k w refl (omega arith) (omega (arith, w.short)) in
    let v1 = IsWord-kept m command parsed_cmd k (k + 1) a c1 (omega (arith, w.short)) v in
    let behind : (k + 1) % 256 ≡ k + 1 = omega (arith, w.short) in
    let argument =
      word_found fuel m1 command (k + 1) a (k + 1) (k + 1 + a) v1 refl refl
        (omega (arith, v.short)) in
    let (count, nul) : (k + 1 + a - (k + 1) % 256 ≡ a)
        × (arg + (k + 1 + a) - (k + 1) % 256 ≡ arg + a) =
      omega (arith, w.short) in
    (
      argument_stored m1 command arg (k + 1) a,
      rw (parse_command, start, name, behind, argument, count, nul, behind) refl,
      name_read m command parsed_cmd arg k a i c1 c2 c3 (omega (arith, v.short)) q,
      argument_read m command parsed_cmd arg k a j c1 c2 (omega (arith, v.short)) r,
    )
