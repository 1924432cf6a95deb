-- ===== src/Interrupts.antt =====
-- student-distrib/idt.c: the interrupt descriptor table as init_idt fills it. The address of each
-- handler, which the linker gives, is an argument.
pub mod Gates
pub mod Exceptions
use ece391_os.Common.{ℕ, zero, suc, ◌+◌, ◌/◌, ◌%◌, ◌^◌, ltb, ◌==◌, if◌then◌else◌, List, [], ◌∷◌}

abbrev pub syscall_vector : ℕ
syscall_vector = 0x80

abbrev pub num_vec : ℕ
num_vec = 256

-- idt_desc_t.
pub record Gate : Type 0 where
  pub offset_15_00 : ℕ
  pub seg_selector : ℕ
  pub reserved4 : ℕ
  pub reserved3 : ℕ
  pub reserved2 : ℕ
  pub reserved1 : ℕ
  pub size : ℕ
  pub reserved0 : ℕ
  pub dpl : ℕ
  pub present : ℕ
  pub offset_31_16 : ℕ

-- The functions whose addresses go into the table, by their names in the source.
pub data Handler : Type 0 where
  divide_error : Handler
  debug : Handler
  nmi : Handler
  breakpoint : Handler
  overflow : Handler
  bounds : Handler
  invalid_op : Handler
  device_not_available : Handler
  double_fault : Handler
  segment_overrun : Handler
  invalid_tss : Handler
  segment_not_present : Handler
  stack_segment : Handler
  general_protection : Handler
  page_fault : Handler
  generic_error : Handler
  fp : Handler
  alignment_check : Handler
  machine_check : Handler
  rtc_handler : Handler
  keyboard_handler : Handler
  pit_handler : Handler
  system_call_handler : Handler

-- One round of the loop of init_idt, on the entry that it finds.
unfoldable pub init_gate : ℕ → Gate → Gate
init_gate i g =
    let g1 = record g {
      present = 1;
      dpl = 0;
      size = 1;
      reserved0 = 0;
      reserved1 = 1;
      reserved2 = 1;
      reserved3 = 0;
      reserved4 = 0;
      seg_selector = 0x0010;
    } in
    let g2 = if ltb i 32 then record g1 { reserved3 = 1 } else g1 in
    if syscall_vector == i then record g2 { reserved3 = 1; dpl = 3 } else g2

-- The loop, with the rounds that are left.
unfoldable pub gates_from : ℕ → ℕ → (ℕ → Gate) → ℕ → Gate
unfolding init_gate
gates_from zero i idt j = idt j
gates_from (suc r) i idt j =
    gates_from r (i + 1) (λ v. if i == v then init_gate i (idt v) else idt v) j

-- SET_IDT_ENTRY(idt[vector], handler), for an address.
unfoldable pub set_idt_entry : ℕ → ℕ → (ℕ → Gate) → ℕ → Gate
set_idt_entry vector address idt j =
    if vector == j
    then record (idt j) {
      offset_31_16 = address / 2 ^ 16 % 2 ^ 16;
      offset_15_00 = address % 2 ^ 16;
    }
    else idt j

-- The calls of SET_IDT_ENTRY, in their order.
abbrev pub entries : List (ℕ × Handler)
entries =
    (0, divide_error)
    ∷ (1, debug)
    ∷ (2, nmi)
    ∷ (3, breakpoint)
    ∷ (4, overflow)
    ∷ (5, bounds)
    ∷ (6, invalid_op)
    ∷ (7, device_not_available)
    ∷ (8, double_fault)
    ∷ (9, segment_overrun)
    ∷ (10, invalid_tss)
    ∷ (11, segment_not_present)
    ∷ (12, stack_segment)
    ∷ (13, general_protection)
    ∷ (14, page_fault)
    ∷ (15, generic_error)
    ∷ (16, fp)
    ∷ (17, alignment_check)
    ∷ (18, machine_check)
    ∷ (0x28, rtc_handler)
    ∷ (0x21, keyboard_handler)
    ∷ (0x20, pit_handler)
    ∷ (0x80, system_call_handler)
    ∷ []

unfoldable pub set_entries : (Handler → ℕ) → List (ℕ × Handler) → (ℕ → Gate) → ℕ → Gate
unfolding set_idt_entry
set_entries address [] idt = idt
set_entries address ((vector, h) ∷ rest) idt =
    set_entries address rest (set_idt_entry vector (address h) idt)

-- init_idt, up to the load of the table.
unfoldable pub init_idt : (Handler → ℕ) → (ℕ → Gate) → ℕ → Gate
unfolding gates_from set_entries
init_idt address idt = set_entries address entries (gates_from num_vec 0 idt)
