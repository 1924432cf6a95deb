-- ===== src/Tests/Devices.antt =====
-- The interrupt controllers, the real-time clock and the interrupt descriptor table.
use ece391_os.Common.{
  ℕ, zero, suc, ◌-◌, ◌*◌, ◌/◌, ◌%◌, ◌^◌, ◌≤◌, ◌≡◌, ◌≢◌, inl, refl, arith, true, false, none, some,
  [], ◌∷◌, pos,
}
use ece391_os.Devices.Pic.{Pic, power_on, enable_irq, disable_irq}
use ece391_os.Devices.Pic.Masks.{
  AreBytes, reaches, enable_irq-reaches, disable_irq-reaches_master, disable_irq-reaches_slave,
}
use ece391_os.Devices.Rtc.{
  Rtc, rtc_set_freq, rtc_read, rtc_interrupt_handler, register_a, rtc_port, cmos_port,
}
use ece391_os.Devices.Rtc.Frequency.{rtc_set_freq_lem, rtc_set_freq_undefined}
use ece391_os.Interrupts.{Gate, Handler, system_call_handler, init_idt}
use ece391_os.Interrupts.Gates.{offset, offset_of, init_idt_lem}
use ece391_os.Devices.Rtc.Ticks.{HasFlags, rtc_read_once}

power_on-AreBytes : AreBytes power_on
unfolding power_on
power_on-AreBytes = record { master = omega arith; slave = omega arith }

-- The clock's line.
enable_irq-reaches_run : reaches (enable_irq 8 power_on) 8 ≡ true
enable_irq-reaches_run = enable_irq-reaches 8 8 power_on power_on-AreBytes (omega arith) (inl refl)

-- Every line is open.
abbrev open_lines : Pic
open_lines = record { master_mask = 0; slave_mask = 0; written = [] }

open_lines-AreBytes : AreBytes open_lines
open_lines-AreBytes = record { master = omega arith; slave = omega arith }

disable_irq-reaches_master_run : reaches (disable_irq 1 open_lines) 8 ≡ true
unfolding reaches
disable_irq-reaches_master_run =
    disable_irq-reaches_master 1 8 open_lines open_lines-AreBytes (omega arith) (omega arith)

-- Line 12 is of the slave too.
disable_irq-reaches_slave_run : reaches (disable_irq 8 open_lines) 12 ≡ false
disable_irq-reaches_slave_run =
    disable_irq-reaches_slave 8 12 open_lines open_lines-AreBytes (omega arith) (omega arith)

abbrev quiet : Rtc
quiet = record { interrupt_occurred = 0 ∷ 0 ∷ 0 ∷ []; written = [] }

rtc_set_freq_lem_run :
    (byte : ℕ) × (rtc_set_freq 0x26 (2 ^ 5) quiet
      ≡ some (record quiet {
        written = (register_a, rtc_port) ∷ (register_a, rtc_port) ∷ (byte, cmos_port) ∷ [];
      }))
    × (byte / 16 ≡ 2)
    × (byte % 16 ≡ 11)
    × (2 ^ 5 * 2 ^ (byte % 16 - 1) ≡ 32768)
rtc_set_freq_lem_run = rtc_set_freq_lem 0x26 5 quiet (omega arith) (omega arith) (omega arith)

no_power : (k : ℕ) → 1 ≤ k → k ≤ 13 → 3 ≢ 2 ^ k
no_power zero p q = absurd (omega arith)
no_power (suc zero) p q = omega arith
no_power (suc (suc zero)) p q = omega arith
no_power (suc (suc (suc zero))) p q = omega arith
no_power (suc (suc (suc (suc zero)))) p q = omega arith
no_power (suc (suc (suc (suc (suc zero))))) p q = omega arith
no_power (suc (suc (suc (suc (suc (suc zero)))))) p q = omega arith
no_power (suc (suc (suc (suc (suc (suc (suc zero))))))) p q = omega arith
no_power (suc (suc (suc (suc (suc (suc (suc (suc zero)))))))) p q = omega arith
no_power (suc (suc (suc (suc (suc (suc (suc (suc (suc zero))))))))) p q = omega arith
no_power (suc (suc (suc (suc (suc (suc (suc (suc (suc (suc zero)))))))))) p q = omega arith
no_power (suc (suc (suc (suc (suc (suc (suc (suc (suc (suc (suc zero))))))))))) p q = omega arith
no_power (suc (suc (suc (suc (suc (suc (suc (suc (suc (suc (suc (suc zero)))))))))))) p q =
    omega arith
no_power (suc (suc (suc (suc (suc (suc (suc (suc (suc (suc (suc (suc (suc zero))))))))))))) p q =
    omega arith
no_power (suc (suc (suc (suc (suc (suc (suc (suc (suc (suc (suc (suc (suc (suc k)))))))))))))) p q =
    absurd (omega arith)

rtc_set_freq_undefined_run : rtc_set_freq 0x26 3 quiet ≡ none
rtc_set_freq_undefined_run = rtc_set_freq_undefined 0x26 3 quiet no_power

quiet-HasFlags : HasFlags quiet
quiet-HasFlags = record { three = refl }

rtc_read_once_run :
    (r' : Rtc) × (r'' : Rtc) × (rtc_read 0 (rtc_interrupt_handler quiet) ≡ some (pos 0, r'))
    × (rtc_read 0 r' ≡ none)
    × (rtc_read 2 r' ≡ some (pos 0, r''))
rtc_read_once_run = rtc_read_once quiet 0 2 quiet-HasFlags (omega arith) (omega arith) (omega arith)

abbrev no_gate : Gate
no_gate = record {
  offset_15_00 = 0;
  seg_selector = 0;
  reserved4 = 0;
  reserved3 = 0;
  reserved2 = 0;
  reserved1 = 0;
  size = 0;
  reserved0 = 0;
  dpl = 0;
  present = 0;
  offset_31_16 = 0;
}

-- The handler of system calls at 0x401234, the others at 0x400000.
abbrev address : Handler → ℕ
address system_call_handler = 0x401234
address h = 0x400000

init_idt_lem_example :
    let g = init_idt address (λ i. no_gate) 0x80 in
    (g.present ≡ 1)
    × (g.seg_selector ≡ 0x10)
    × (g.dpl ≡ 3)
    × (g.reserved3 ≡ 1)
    × (offset g ≡ 0x401234)
unfolding offset_of
init_idt_lem_example = init_idt_lem address (λ i. no_gate) 0x80 (omega arith)
