-- ===== src/Devices/Rtc.antt =====
-- student-distrib/rtc.c: the real-time clock. What `inb` reads from the clock is an argument.
pub mod Frequency
pub mod Ticks
use ece391_os.Common.{
  ℕ, zero, suc, ◌+◌, bit_and, bit_or, ◌==◌, ◌||◌, not, if◌then◌else◌, Option, none, some, List, [],
  ◌∷◌, ◌++◌, get_or, set, ℤ, pos, minus_one,
}
use ece391_os.Memory.{Mem, load32}
use ece391_os.Devices.Ports.{Writes}

abbrev pub rtc_port : ℕ
rtc_port = 0x70

abbrev pub cmos_port : ℕ
cmos_port = 0x71

abbrev pub register_a : ℕ
register_a = 0x0A

abbrev pub register_b : ℕ
register_b = 0x0B

-- The global `rtc_interrupt_occurred`, a flag for each terminal, and the port writes.
pub record Rtc : Type 0 where
  pub interrupt_occurred : List ℕ
  pub written : Writes

abbrev outb : ℕ → ℕ → Rtc → Rtc
outb value port r = record r { written = r.written ++ ((value, port) ∷ []) }

-- init_rtc, without the call of enable_irq. `a_old` is the value read from the selected register,
-- which is register A.
unfoldable pub init_rtc : ℕ → Rtc → Rtc
init_rtc a_old r =
    outb (bit_or a_old 0x40) cmos_port (outb register_b rtc_port (outb register_a rtc_port r))

-- The loop of rtc_interrupt_handler, with the rounds that are left.
set_flags : ℕ → List ℕ → ℕ → List ℕ
set_flags zero flags i = flags
set_flags (suc r) flags i = set_flags r (set flags i 1) (i + 1)

-- rtc_interrupt_handler, without the call of send_eoi. What `inb` reads is thrown away.
pub rtc_interrupt_handler : Rtc → Rtc
rtc_interrupt_handler r =
    outb 0x0C rtc_port (record r { interrupt_occurred = set_flags 3 r.interrupt_occurred 0 })

-- `none`: the caller spins until an interrupt sets the flag of the terminal `cur`.
unfoldable pub rtc_read : ℕ → Rtc → Option (ℤ × Rtc)
rtc_read cur r =
    if get_or r.interrupt_occurred cur 0 == 0
    then none
    else some (pos 0, record r { interrupt_occurred = set r.interrupt_occurred cur 0 })

-- `rate` after the row of tests; `none`: no test held, and the local has no value.
pub rtc_rate : ℕ → Option ℕ
rtc_rate freq =
    if freq == 1024
    then some 0x06
    else if freq == 512
    then some 0x07
    else if freq == 256
    then some 0x08
    else if freq == 128
    then some 0x09
    else if freq == 64
    then some 0x0A
    else if freq == 32
    then some 0x0B
    else if freq == 16
    then some 0x0C
    else if freq == 8
    then some 0x0D
    else if freq == 4
    then some 0x0E
    else if freq == 2
    then some 0x0F
    else none

-- `a_old` is what register A holds. `none`: a `rate` without a value would be written.
unfoldable pub rtc_set_freq : ℕ → ℕ → Rtc → Option Rtc
unfolding rtc_rate
rtc_set_freq a_old freq r =
    let r1 = outb register_a rtc_port r in
    if freq == 8192 || freq == 4096 || freq == 2048 then some r1 else (elim (rtc_rate freq) [
      | none ↦ none
      | some rate ↦
          some (outb (bit_or (bit_and 0xF0 a_old) rate) cmos_port (outb register_a rtc_port r1))
    ])

-- rtc_open and rtc_close set 2 Hz and return 0.
unfoldable pub rtc_open : ℕ → Rtc → Option (ℤ × Rtc)
unfolding rtc_set_freq
rtc_open a_old r = elim (rtc_set_freq a_old 2 r) [ none ↦ none | some r' ↦ some (pos 0, r') ]

unfoldable pub rtc_close : ℕ → Rtc → Option (ℤ × Rtc)
unfolding rtc_set_freq
rtc_close a_old r = elim (rtc_set_freq a_old 2 r) [ none ↦ none | some r' ↦ some (pos 0, r') ]

-- `buf` is an address, 0 for NULL.
unfoldable pub rtc_write : ℕ → Mem → ℕ → ℕ → Rtc → Option (ℤ × Rtc)
unfolding rtc_set_freq
rtc_write a_old m buf nbytes r =
    if not (4 == nbytes) || buf == 0
    then some (minus_one, r)
    else (elim (rtc_set_freq a_old (load32 m buf) r) [
      | none ↦ none
      | some r' ↦ some (pos nbytes, r')
    ])
