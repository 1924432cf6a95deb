-- ===== src/Devices/Pic.antt =====
-- student-distrib/i8259.c: the two interrupt controllers, by their mask registers.
pub mod Masks
use ece391_os.Common.{
  ℕ, ◌+◌, ◌-◌, ◌*◌, ◌/◌, ◌%◌, ◌^◌, bit_and, bit_or, ltb, ◌==◌, ◌&&◌, Bool, if◌then◌else◌, List, [],
  ◌∷◌, ◌++◌,
}
use ece391_os.Devices.Ports.{Writes}

abbrev pub icw3_slave : ℕ
icw3_slave = 0x02

abbrev pub num_irq : ℕ
num_irq = 0x0F

abbrev pub eoi : ℕ
eoi = 0x60

abbrev pub master_port : ℕ
master_port = 0x20

abbrev pub master_data_port : ℕ
master_data_port = 0x21

abbrev pub slave_port : ℕ
slave_port = 0xA0

abbrev pub slave_data_port : ℕ
slave_data_port = 0xA1

-- The globals `master_mask` and `slave_mask`, and what has been written to the ports.
pub record Pic : Type 0 where
  pub master_mask : ℕ
  pub slave_mask : ℕ
  pub written : Writes

-- The masks as they are before `i8259_init`, and stay in it.
unfoldable pub power_on : Pic
power_on = record { master_mask = 0xFF; slave_mask = 0xFF; written = [] }

unfoldable pub i8259_init : Pic → Pic
i8259_init p = record p {
  written =
      p.written
      ++ ((0xFF, master_data_port)
          ∷ (0xFF, slave_data_port)
          ∷ (0x11, master_port)
          ∷ (0x20, master_data_port)
          ∷ (0x04, master_data_port)
          ∷ (0x01, master_data_port)
          ∷ (0x11, slave_port)
          ∷ (0x28, slave_data_port)
          ∷ (icw3_slave, slave_data_port)
          ∷ (0x01, slave_data_port)
          ∷ []);
}

-- mask &= ~(1 << irq) on a uint8_t: the low byte of ~(1 << irq) is 255 - 2 ^ irq.
pub unmasked : ℕ → ℕ → ℕ
unmasked mask irq = bit_and mask (255 - 2 ^ irq)

-- mask |= 1 << irq on a uint8_t.
pub masked : ℕ → ℕ → ℕ
masked mask irq = bit_or mask (2 ^ irq) % 256

unfoldable pub enable_irq : ℕ → Pic → Pic
enable_irq irq_num p =
    if ltb num_irq irq_num
    then p
    else if ltb 7 irq_num
    then (let slave = unmasked p.slave_mask (irq_num - 8) in
        let master = unmasked p.master_mask icw3_slave in
        record {
          master_mask = master;
          slave_mask = slave;
          written = p.written ++ ((slave, slave_data_port) ∷ (master, master_data_port) ∷ []);
        })
    else (let master = unmasked p.master_mask irq_num in
        record p { master_mask = master; written = p.written ++ ((master, master_data_port) ∷ []) })

unfoldable pub disable_irq : ℕ → Pic → Pic
disable_irq irq_num p =
    if ltb num_irq irq_num
    then p
    else if ltb 7 irq_num
    then (let slave = masked p.slave_mask (irq_num - 8) in
        let master = masked p.master_mask icw3_slave in
        record {
          master_mask = master;
          slave_mask = slave;
          written = p.written ++ ((slave, slave_data_port) ∷ (master, master_data_port) ∷ []);
        })
    else (let master = masked p.master_mask irq_num in
        record p { master_mask = master; written = p.written ++ ((master, master_data_port) ∷ []) })

unfoldable pub send_eoi : ℕ → Pic → Pic
send_eoi irq_num p =
    if ltb num_irq irq_num
    then p
    else if ltb 7 irq_num
    then record p {
      written =
          p.written ++ ((bit_or eoi (irq_num - 8), slave_port) ∷ (bit_or eoi 2, master_port) ∷ []);
    }
    else record p { written = p.written ++ ((bit_or eoi irq_num, master_port) ∷ []) }
