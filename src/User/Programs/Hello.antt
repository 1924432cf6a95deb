-- ===== src/User/Programs/Hello.antt =====
-- hello.c on the kernel's own calls.
use ece391_os.Common.{ℕ, ◌+◌, ◌≤◌, ◌<◌, ◌≡◌, ◌≢◌, ap, ne→==, some, List, ◌++◌, length, pos}
use ece391_os.CString.{codes}
use ece391_os.Memory.{upd}
use ece391_os.Print.Format.{IsPlain}
use ece391_os.Process.Calls.{sys_read, table_read}
use ece391_os.User.Calls.{Machine, store}
use ece391_os.User.Kernel.{Served, Services, kernel_calls}
use ece391_os.User.Output.{
  Listens, IsQuoted, IsQuoted-kept, with_output, with_output-Listens, with_output-append, Answers,
  line-IsText, answer_kept, fdputs-with_output,
}
use ece391_os.User.Programs.{hello}

-- On the kernel's own calls, hello asks for the name, and shows "Hello, " and the line that was typed,
-- its newline included, on the screen that the read has left; it ends with status 0, and the memory
-- that the read has left has one NUL more, behind the count. The line holds no NUL and no `%`.
-- Descriptors 0 and 1 are the keyboard and the screen of the shown terminal before and after the
-- read, and the literals stand outside the array.
pub hello-greets :
    (k : Services) (buf n : ℕ) (u v : Machine Served) (line : List ℕ)
    → 3 ≤ k.depth
    → Listens u.world
    → IsQuoted k u.memory buf "Hi, what's your name? "
    → IsQuoted k u.memory buf "Hello, "
    → buf ≢ 0
    → k.terminal_read 0 buf
        (pos 1023)
        (record u { world = with_output (codes "Hi, what's your name? ") u.world })
      ≡ some (pos n, v)
    → Answers u.memory buf line n v
    → IsPlain line
    → length line < k.chars
    → hello (kernel_calls k) buf u
      ≡ some (
        pos 0,
        record {
          memory = upd v.memory (buf + n) 0;
          world = with_output (codes "Hello, " ++ line) v.world;
        },
      )
unfolding hello kernel_calls sys_read table_read store
hello-greets k buf n u v line deep l asked greeting there r a plain short =
    let e =
      fdputs-with_output k deep u (k.literal "Hi, what's your name? ")
        (codes "Hi, what's your name? ") l asked.stands asked.plain asked.short asked.somewhere in
    let u2 : Machine Served = record v { memory = upd v.memory (buf + n) 0 } in
    let kept = IsQuoted-kept (λ b out. answer_kept u.memory buf n b line v a out) greeting in
    let e2 =
      fdputs-with_output k deep u2 (k.literal "Hello, ") (codes "Hello, ") a.listens kept.stands
        kept.plain kept.short kept.somewhere in
    let e3 =
      fdputs-with_output k deep (record u2 { world = with_output (codes "Hello, ") v.world }) buf
        line (with_output-Listens (codes "Hello, ") v.world a.listens)
        (line-IsText u.memory buf n line v a) plain short there in
    rw (e, ne→== buf 0 there, l.in_use.0, l.keyboard, r, e2, e3)
      (ap (λ w. some (pos 0, record u2 { world = w }))
        (with_output-append (codes "Hello, ") line v.world))
