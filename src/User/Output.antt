-- ===== src/User/Output.antt =====
-- A user program on the kernel's own calls: what it writes goes to the shown screen, and what a read of
-- the keyboard leaves.
use Prim.Native.String.{String}
use ece391_os.Common.{
  ℕ, ◌+◌, ◌≤◌, ◌<◌, ◌≡◌, ◌≢◌, ◌⊎◌, inl, inr, sym, ap, ◌∙◌, arith, ne→==, some, List, ◌++◌, length,
  pos,
}
use ece391_os.CString.{codes}
use ece391_os.Memory.{Mem, upd}
use ece391_os.Print.Text.{IsText, IsText-kept}
use ece391_os.Print.Format.{IsPlain}
use ece391_os.Screen.Cursor.{OnScreen}
use ece391_os.Screen.Output.{
  printed_all, printed_all-OnScreen, printed_all-cur_term, printed_all-append,
}
use ece391_os.Terminal.Write.{terminal_write-kept}
use ece391_os.Process.Descriptors.{desc, fops_stdin, fops_stdout}
use ece391_os.Process.Calls.{sys_write, table_write}
use ece391_os.User.Calls.{Machine, fdputs, bytes}
use ece391_os.User.Console.{fdputs-write, NoNul, bytes_are-IsText, bytes-upd_behind}
use ece391_os.User.Kernel.{Served, Services, kernel_calls, kernel_write, written}

-- Descriptors 0 and 1 are the keyboard and the screen, and the terminal is the shown one.
pub record Listens (w : Served) : Type 0 where
  pub in_use : ((desc w.fds 0).flags ≡ 1) × ((desc w.fds 1).flags ≡ 1)
  pub keyboard : (desc w.fds 0).fops_ptr ≡ fops_stdin
  pub screen : (desc w.fds 1).fops_ptr ≡ fops_stdout
  pub shown : w.terminals.screen.cur_term ≡ w.terminals.cur_active
  pub on_screen : OnScreen w.terminals.screen

-- A literal without a `%` stands outside the array at `buf`.
pub record IsQuoted (k : Services) (m : Mem) (buf : ℕ) (t : String) : Type 0 where
  pub stands : IsText m (k.literal t) (codes t)
  pub somewhere : k.literal t ≢ 0
  pub plain : IsPlain (codes t)
  pub short : length (codes t) < k.chars
  pub apart : (k.literal t + length (codes t) < buf) ⊎ (buf + 1024 ≤ k.literal t)

pub IsQuoted-kept :
    {k : Services} {m m' : Mem} {buf : ℕ} {t : String}
    → ((b : ℕ) → (b < buf) ⊎ (buf + 1024 ≤ b) → m' b ≡ m b)
    → IsQuoted k m buf t
    → IsQuoted k m' buf t
IsQuoted-kept {k} {m} {m'} {buf} {t} kept q = record {
  stands =
      IsText-kept m m' (k.literal t) (codes t)
        (λ b l h. kept b (elim q.apart [ inl p ↦ inl (omega arith) | inr p ↦ inr (omega arith) ]))
        q.stands;
  somewhere = q.somewhere;
  plain = q.plain;
  short = q.short;
  apart = q.apart;
}

-- The text has gone to the shown screen.
abbrev pub with_output : List ℕ → Served → Served
with_output cs w = record w {
  terminals = record w.terminals { screen = printed_all cs w.terminals.screen };
}

pub with_output-Listens : (cs : List ℕ) (w : Served) → Listens w → Listens (with_output cs w)
with_output-Listens cs w l = record {
  in_use = l.in_use;
  keyboard = l.keyboard;
  screen = l.screen;
  shown = printed_all-cur_term cs w.terminals.screen ∙ l.shown;
  on_screen = printed_all-OnScreen cs w.terminals.screen l.on_screen;
}

pub with_output-append :
    (xs ys : List ℕ) (w : Served) → with_output ys (with_output xs w) ≡ with_output (xs ++ ys) w
with_output-append xs ys w =
    ap (λ s. record w { terminals = record w.terminals { screen = s } })
      (sym (printed_all-append xs ys w.terminals.screen))

-- What the keyboard's read has left: the bytes of `line` at the start of the array, and a NUL behind
-- them unless the count `n` ends there; the rest of the memory is as in `m`.
pub record Answers (m : Mem) (buf : ℕ) (line : List ℕ) (n : ℕ) (v : Machine Served) : Type 0 where
  pub here : bytes v.memory buf (length line) ≡ line
  pub clean : NoNul line
  pub low : length line ≤ n
  pub high : n ≤ 1023
  pub ended : (n ≡ length line) ⊎ (v.memory (buf + length line) ≡ 0)
  pub kept : (b : ℕ) → (b < buf) ⊎ (buf + 1024 ≤ b) → v.memory b ≡ m b
  pub listens : Listens v.world

-- With a NUL behind the count, the line is a text.
pub line-IsText :
    (m : Mem) (buf n : ℕ) (line : List ℕ) (v : Machine Served)
    → Answers m buf line n v
    → IsText (upd v.memory (buf + n) 0) buf line
unfolding upd
line-IsText m buf n line v a =
    bytes_are-IsText (upd v.memory (buf + n) 0) buf line
      (bytes-upd_behind v.memory buf (length line) (buf + n) 0 (omega (arith, a.low)) ∙ a.here)
      a.clean (elim a.ended [ inl e ↦ ground (arith, e) | inr e ↦ ground (arith, e) ])

pub answer_kept :
    (m : Mem) (buf n b : ℕ) (line : List ℕ) (v : Machine Served)
    → Answers m buf line n v
    → (b < buf) ⊎ (buf + 1024 ≤ b)
    → upd v.memory (buf + n) 0 b ≡ m b
unfolding upd
answer_kept m buf n b line v a (inl l) = ground (arith, a.kept b (inl l), a.high)
answer_kept m buf n b line v a (inr l) = ground (arith, a.kept b (inr l), a.high)

module _ (k : Services) (deep : 3 ≤ k.depth) where
  -- ece391_fdputs of a text without a `%`.
  pub fdputs-with_output :
      (u : Machine Served) (a : ℕ) (cs : List ℕ)
      → Listens u.world
      → IsText u.memory a cs
      → IsPlain cs
      → length cs < k.chars
      → a ≢ 0
      → fdputs (kernel_calls k) (pos 1) a u ≡ some (tt, record u { world = with_output cs u.world })
  unfolding kernel_calls kernel_write sys_write table_write
  fdputs-with_output u a cs l t p h n =
      let e =
        terminal_write-kept k.depth k.chars k.chars k.conv_buf k.args (pos 1) a (pos (length cs))
          u.memory u.world.terminals cs l.shown l.on_screen deep t h p in
      fdputs-write (kernel_calls k) u (record u { world = with_output cs u.world }) a cs
        (pos (length cs)) t h (rw (ne→== a 0 n, l.in_use.1, l.screen) (ap (written k u) e))
