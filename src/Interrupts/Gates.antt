-- ===== src/Interrupts/Gates.antt =====
-- What the table of idt.c lets in, and where its entries lead.
use ece391_os.Common.{
  ℕ, zero, suc, ◌+◌, ◌*◌, ◌%◌, ◌^◌, ◌<◌, ◌≡◌, refl, ◌∙◌, ap, arith, true, leb, ltb, ◌==◌, ◌&&◌,
  ◌||◌, if◌then◌else◌, List, [], ◌∷◌,
}
use ece391_os.Interrupts.{
  Gate, Handler, init_gate, gates_from, set_idt_entry, set_entries, init_idt, entries,
}

gates_from_lem :
    (r i : ℕ) (idt : ℕ → Gate) (j : ℕ)
    → gates_from r i idt j ≡ (if leb i j && ltb j (i + r) then init_gate j (idt j) else idt j)
unfolding gates_from
gates_from_lem zero i idt j = ground arith
gates_from_lem (suc r) i idt j =
    ground (arith, gates_from_lem r (i + 1) (λ v. if i == v then init_gate i (idt v) else idt v) j)

-- Where the entries lead vector `j`: the last one for it counts, and with none it stays.
unfoldable pub offset_of : (Handler → ℕ) → List (ℕ × Handler) → ℕ → ℕ → ℕ
offset_of address [] j old = old
offset_of address ((vector, h) ∷ rest) j old =
    offset_of address rest j (if vector == j then address h % 2 ^ 32 else old)

abbrev pub offset : Gate → ℕ
offset g = g.offset_31_16 * 2 ^ 16 + g.offset_15_00

-- What SET_IDT_ENTRY leaves of a gate.
pub record SameRights (g g' : Gate) : Type 0 where
  pub present : g'.present ≡ g.present
  pub dpl : g'.dpl ≡ g.dpl
  pub reserved3 : g'.reserved3 ≡ g.reserved3
  pub selector : g'.seg_selector ≡ g.seg_selector

set_idt_entry_lem :
    (v a : ℕ) (idt : ℕ → Gate) (j : ℕ)
    → SameRights (idt j) (set_idt_entry v a idt j)
      × (offset (set_idt_entry v a idt j) ≡ (if v == j then a % 2 ^ 32 else offset (idt j)))
unfolding set_idt_entry
set_idt_entry_lem v a idt j = (
  record {
    present = ground arith;
    dpl = ground arith;
    reserved3 = ground arith;
    selector = ground arith;
  },
  ground arith,
)

in_table : (j : ℕ) → j < 256 → (leb 0 j && ltb j (0 + 256)) ≡ true
in_table j h = ground arith

init_gate_lem :
    (j : ℕ) (g : Gate)
    → ((init_gate j g).present ≡ 1)
      × ((init_gate j g).seg_selector ≡ 0x10)
      × ((init_gate j g).dpl ≡ (if j == 0x80 then 3 else 0))
      × ((init_gate j g).reserved3 ≡ (if ltb j 32 || j == 0x80 then 1 else 0))
      × (offset (init_gate j g) ≡ offset g)
unfolding init_gate
init_gate_lem j g = (ground arith, ground arith, ground arith, ground arith, ground arith)

set_entries_lem :
    (address : Handler → ℕ) (es : List (ℕ × Handler)) (idt : ℕ → Gate) (j : ℕ)
    → SameRights (idt j) (set_entries address es idt j)
      × (offset (set_entries address es idt j) ≡ offset_of address es j (offset (idt j)))
unfolding set_entries set_idt_entry offset_of
set_entries_lem address [] idt j =
    (record { present = refl; dpl = refl; reserved3 = refl; selector = refl }, refl)
set_entries_lem address ((v, h) ∷ es) idt j =
    let idt' = set_idt_entry v (address h) idt in
    let (same, led) = set_entries_lem address es idt' j in
    let (one, low) = set_idt_entry_lem v (address h) idt j in
    (
      record {
        present = same.present ∙ one.present;
        dpl = same.dpl ∙ one.dpl;
        reserved3 = same.reserved3 ∙ one.reserved3;
        selector = same.selector ∙ one.selector;
      },
      led ∙ ap (offset_of address es j) low,
    )

-- After init_idt every vector is present in the kernel's segment; the system call vector alone may
-- be used by user programs; that vector and the first 32 are trap gates (reserved3 is 1), which
-- leave interrupts on, and the others interrupt gates; and each entry leads to the address of the
-- handler that the table of the calls names last for it, or where it led before.
pub init_idt_lem :
    (address : Handler → ℕ) (idt : ℕ → Gate) (j : ℕ)
    → j < 256
    → let g = init_idt address idt j in
      (g.present ≡ 1)
      × (g.seg_selector ≡ 0x10)
      × (g.dpl ≡ (if j == 0x80 then 3 else 0))
      × (g.reserved3 ≡ (if ltb j 32 || j == 0x80 then 1 else 0))
      × (offset g ≡ offset_of address entries j (offset (idt j)))
unfolding init_idt
init_idt_lem address idt j h =
    let (same, led) = set_entries_lem address entries (gates_from 256 0 idt) j in
    let filled : gates_from 256 0 idt j ≡ init_gate j (idt j) =
      gates_from_lem 256 0 idt j ∙ rw (in_table j h) refl in
    let (present, selector, dpl, trap, kept) = init_gate_lem j (idt j) in
    (
      same.present ∙ (ap (λ g. g.present) filled ∙ present),
      same.selector ∙ (ap (λ g. g.seg_selector) filled ∙ selector),
      same.dpl ∙ (ap (λ g. g.dpl) filled ∙ dpl),
      same.reserved3 ∙ (ap (λ g. g.reserved3) filled ∙ trap),
      led ∙ ap (offset_of address entries j) (ap offset filled ∙ kept),
    )
