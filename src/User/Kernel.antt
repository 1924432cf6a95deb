-- ===== src/User/Kernel.antt =====
-- The system calls of a user program as the kernel answers them: the calls of User/Calls, with the
-- functions of student-distrib/syscalls.c behind them.
use Prim.Native.String.{String}
use ece391_os.Common.{ℕ, Option, none, some, List, ℤ, pos}
use ece391_os.Memory.{Mem}
use ece391_os.Devices.Rtc.{Rtc}
use ece391_os.Paging.{Paging}
use ece391_os.Terminal.{Terminals}
use ece391_os.Terminal.Active.{terminal_write}
use ece391_os.Process.Descriptors.{FileDesc, sys_open, sys_close}
use ece391_os.Process.Calls.{table_read, table_write, sys_read, sys_write, vidmap, getargs}
use ece391_os.User.Calls.{Machine, Run, Calls}

-- What the calls change behind the program: its descriptors, the clock, the tables of paging and the
-- terminals.
pub record Served : Type 0 where
  pub fds : List FileDesc
  pub rtc : Rtc
  pub paging : Paging
  pub terminals : Terminals

abbrev pub Device : Type 0
Device = ℕ → ℕ → ℤ → Machine Served → Option (ℤ × Machine Served)

-- The devices' functions, execute, and the addresses and bounds that the calls are given; `depth`,
-- `size`, `conv_buf` and `args` are those of terminal_write, which is the kernel's own.
pub record Services : Type 0 where
  pub terminal_read : Device
  pub rtc_read : Device
  pub directory_read : Device
  pub file_read : Device
  pub rtc_write : Device
  pub execute : ℕ → Run Served ℤ
  pub file_system : ℕ
  pub dir_entry : ℕ
  pub cur_name : ℕ
  pub a_old : ℕ
  pub argbuf : ℕ
  pub depth : ℕ
  pub conv_buf : ℕ
  pub args : List ℕ
  pub literal : String → ℕ
  pub chars : ℕ

module _ (k : Services) where
  -- What terminal_write leaves.
  unfoldable pub written :
      Machine Served → Option (ℤ × Mem × Terminals) → Option (ℤ × Machine Served)
  written u none = none
  written u (some (r, m, s)) =
      some (r, record { memory = m; world = record u.world { terminals = s } })

  unfoldable pub kernel_write : Device
  unfolding written
  kernel_write fd buf nbytes u = written u (
      terminal_write k.depth k.chars k.chars k.conv_buf k.args (pos fd) buf nbytes u.memory
        u.world.terminals)

  kernel_open : ℕ → Run Served ℤ
  kernel_open filename u =
      elim (sys_open k.chars u.memory k.file_system filename k.dir_entry k.cur_name k.a_old
        u.world.fds u.world.rtc) [
          | none ↦ none
          | some (r, fds, rtc, m) ↦
              some (r, record { memory = m; world = record u.world { fds = fds; rtc = rtc } })
        ]

  -- What sys_close leaves.
  unfoldable pub closed :
      Machine Served → Option (ℤ × List FileDesc × Rtc) → Option (ℤ × Machine Served)
  closed u none = none
  closed u (some (r, fds, rtc)) =
      some (r, record u { world = record u.world { fds = fds; rtc = rtc } })

  unfoldable pub kernel_close : ℤ → Run Served ℤ
  unfolding closed
  kernel_close fd u = closed u (sys_close fd k.a_old u.world.fds u.world.rtc)

  kernel_getargs : ℕ → ℕ → Run Served ℤ
  kernel_getargs buf nbytes u = elim (getargs k.chars u.memory buf k.argbuf) [
    | none ↦ none
    | some (r, m) ↦ some (r, record u { memory = m })
  ]

  kernel_vidmap : ℕ → Run Served ℤ
  kernel_vidmap screen_start u =
      let (r, m, p) = vidmap screen_start u.memory u.world.paging in
      some (r, record { memory = m; world = record u.world { paging = p } })

  unfoldable pub kernel_calls : Calls Served
  unfolding kernel_write kernel_open kernel_close kernel_getargs kernel_vidmap
  kernel_calls = record {
    ece391_execute = k.execute;
    ece391_read = λ fd buf n u.
        sys_read (table_read k.terminal_read k.rtc_read k.directory_read k.file_read) fd buf (pos n)
          u.world.fds u;
    ece391_write =
        λ fd buf n u. sys_write (table_write kernel_write k.rtc_write) fd buf n u.world.fds u;
    ece391_open = kernel_open;
    ece391_close = kernel_close;
    ece391_getargs = kernel_getargs;
    ece391_vidmap = kernel_vidmap;
    literal = k.literal;
    chars = k.chars;
  }
