-- ===== src/User/Programs/Shell.antt =====
-- shell.c on the kernel's own calls.
use Prim.Native.String.{String}
use ece391_os.Common.{
  ℕ, zero, suc, ◌+◌, ◌≤◌, ◌<◌, ◌≡◌, ◌≢◌, refl, ap, sym, ◌∙◌, arith, ne→==, ◌==◌, false, Bool-cases,
  inl, inr, if◌then◌else◌, some, List, [], ◌∷◌, length, pos, negsuc, ℤ, is_zero,
}
use ece391_os.CString.{codes}
use ece391_os.Memory.{Mem, upd}
use ece391_os.Print.Text.{IsText}
use ece391_os.Process.Calls.{sys_read, table_read}
use ece391_os.User.Calls.{Machine, store, compare_strings, puts_literal}
use ece391_os.User.Compare.{ece391_strcmp-IsVerdict}
use ece391_os.User.Kernel.{Served, Services, kernel_calls}
use ece391_os.User.Output.{
  Listens, IsQuoted, IsQuoted-kept, with_output, Answers, line-IsText, answer_kept,
  fdputs-with_output,
}
use ece391_os.User.Programs.{trimmed, report, shell_loop}

-- What the shell says about the status of a command.
abbrev pub status_text : ℤ → List ℕ
status_text (pos zero) = []
status_text (pos (suc n)) =
    if suc n == 256
    then codes "program terminated by exception\n"
    else codes "program terminated abnormally\n"
status_text (negsuc zero) = codes "no such command\n"
status_text (negsuc (suc n)) = codes "program terminated abnormally\n"

-- The literals stand in the memory.
pub record AreQuoted (k : Services) (m : Mem) (buf : ℕ) : Type 0 where
  pub prompt : IsQuoted k m buf "391OS> "
  pub exit : IsQuoted k m buf "exit"
  pub missing : IsQuoted k m buf "no such command\n"
  pub broken : IsQuoted k m buf "program terminated by exception\n"
  pub abnormal : IsQuoted k m buf "program terminated abnormally\n"

module _ (k : Services) (deep : 3 ≤ k.depth) (buf : ℕ) (there : buf ≢ 0) where
  says :
      (t : String) (u : Machine Served)
      → Listens u.world
      → IsQuoted k u.memory buf t
      → puts_literal (kernel_calls k) t u
        ≡ some (tt, record u { world = with_output (codes t) u.world })
  unfolding kernel_calls
  says t u l q =
      fdputs-with_output k deep u (k.literal t) (codes t) l q.stands q.plain q.short q.somewhere

  report-status_text :
      (r : ℤ) (u : Machine Served)
      → Listens u.world
      → AreQuoted k u.memory buf
      → report (kernel_calls k) r u
        ≡ some (tt, record u { world = with_output (status_text r) u.world })
  unfolding report
  report-status_text (pos zero) u l q = refl
  report-status_text (pos (suc n)) u l q =
      let bad = ne→== (suc n) 0 (omega arith) in
      elim (Bool-cases (suc n == 256)) [
        | inl y ↦ rw y (says "program terminated by exception\n" u l q.broken)
        | inr e ↦ rw (e, bad) (says "program terminated abnormally\n" u l q.abnormal)
      ]
  report-status_text (negsuc zero) u l q = says "no such command\n" u l q.missing
  report-status_text (negsuc (suc n)) u l q =
      rw (ne→== (suc n) 0 (omega arith)) (says "program terminated abnormally\n" u l q.abnormal)

  -- One line that is typed, from the prompt to the message about its status: `u` before, `u'` behind.
  -- The terminal's read leaves the line, with its newline, and a count whose last byte is no newline;
  -- execute is called with the array's address, and comes back with a status `r`.
  pub record Round (u : Machine Served) (line : List ℕ) (u' : Machine Served) : Type 0 where
    pub count : ℕ
    pub answered : Machine Served
    pub status : ℤ
    pub back : Machine Served
    pub listens : Listens u.world
    pub literals : AreQuoted k u.memory buf
    pub read :
        k.terminal_read 0 buf
          (pos 1023)
          (record u { world = with_output (codes "391OS> ") u.world })
        ≡ some (pos (suc count), answered)
    pub answers : Answers u.memory buf line (suc count) answered
    pub no_newline : answered.memory (buf + count) ≢ 10
    pub something : 0 < length line
    pub short : length line < k.chars
    pub no_exit : line ≢ codes "exit"
    pub executes :
        k.execute buf (record answered { memory = upd answered.memory (buf + suc count) 0 })
        ≡ some (status, back)
    pub hears : Listens back.world
    pub keeps : AreQuoted k back.memory buf
    pub shows : u' ≡ record back { world = with_output (status_text status) back.world }

  first_byte : (m : Mem) (line : List ℕ) → IsText m buf line → 0 < length line → m buf ≢ 0
  first_byte m [] t h = absurd (omega arith)
  first_byte m (x ∷ xs) (p, q, r) h = λ z. q (sym p ∙ z)

  is_zero-ne : (r : ℤ) → r ≢ pos 0 → is_zero r ≡ false
  is_zero-ne (pos zero) h = absurd (h refl)
  is_zero-ne (pos (suc n)) h = ne→== (suc n) 0 (omega arith)
  is_zero-ne (negsuc n) h = refl

  -- On the kernel's own calls, a round of the shell shows the prompt, reads a line, calls execute with
  -- the line as it was typed, its newline included, as a text in the array, shows what the status
  -- stands for (nothing for 0, a message for -1, 256 and any other), and goes on with the next line. The
  -- count of the read ends in no newline, as that of terminal_read does for a short line; the line is
  -- not empty, has no NUL and is not exit; execute comes back; and before and after the read and
  -- execute the descriptors are the keyboard and the screen of the shown terminal and the literals
  -- stand in the memory.
  pub shell_loop-Round :
      (fuel : ℕ) (u u' : Machine Served) (line : List ℕ)
      → (r : Round u line u')
      → (shell_loop (kernel_calls k) (suc fuel) buf u ≡ shell_loop (kernel_calls k) fuel buf u')
        × IsText (upd r.answered.memory (buf + suc r.count) 0) buf line
  unfolding shell_loop kernel_calls sys_read table_read store trimmed compare_strings
  shell_loop-Round fuel u u' line r =
      let v = r.answered in
      let e = says "391OS> " u r.listens r.literals.prompt in
      let u2 : Machine Served = record v { memory = upd v.memory (buf + suc r.count) 0 } in
      let text = line-IsText u.memory buf (suc r.count) line v r.answers in
      let exit =
        IsQuoted-kept (λ b out. answer_kept u.memory buf (suc r.count) b line v r.answers out)
          r.literals.exit in
      let (w, compared, iff) =
        ece391_strcmp-IsVerdict k.chars u2.memory buf (k.literal "exit") line (codes "exit") text
          exit.stands r.short in
      let said = report-status_text r.status r.back r.hears r.keeps in
      let different = is_zero-ne w (λ z. r.no_exit (iff.0 z)) in
      let seen = ne→== (u2.memory buf) 0 (first_byte u2.memory line text r.something) in
      (
        rw
            (
              e,
              ne→== buf 0 there,
              r.listens.in_use.0,
              r.listens.keyboard,
              r.read,
              ne→== (v.memory (buf + r.count)) 10 r.no_newline,
              compared,
              different,
              seen,
              r.executes,
              said,
            )
            (ap (shell_loop (kernel_calls k) fuel buf) (sym r.shows)),
        text,
      )
