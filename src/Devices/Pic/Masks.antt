-- ===== src/Devices/Pic/Masks.antt =====
-- What i8259.c does to the interrupts that reach the processor.
use ece391_os.Common.{
  ℕ, ◌-◌, ◌/◌, ◌%◌, ◌^◌, ◌≤◌, ◌<◌, ◌≡◌, ◌≢◌, ◌⊎◌, refl, arith, Bool, true, false, ltb, ◌==◌, ◌&&◌,
  ltb→lt, leb, not, if◌then◌else◌, all_below, all_below_sound,
}
use ece391_os.Devices.Pic.{Pic, enable_irq, disable_irq, unmasked, masked, num_irq, icw3_slave}

-- Bit `i` of a mask is set.
abbrev pub bit : ℕ → ℕ → Bool
bit mask i = mask / 2 ^ i % 2 == 1

-- The masks let an interrupt through: the bit of the line is clear, and for a line of the slave the
-- bit of line 2 of the master too, by which the slave's interrupts come.
unfoldable pub reaches : Pic → ℕ → Bool
reaches p irq =
    if ltb irq 8
    then not (bit p.master_mask irq)
    else ltb irq 16 && not (bit p.slave_mask (irq - 8)) && not (bit p.master_mask 2)

pub record AreBytes (p : Pic) : Type 0 where
  pub master : p.master_mask < 256
  pub slave : p.slave_mask < 256

abbrev agree : Bool → Bool → Bool
agree true b = b
agree false b = not b

agree→eq : (a b : Bool) → agree a b ≡ true → a ≡ b
agree→eq a b h = ground arith

-- Every bit of every byte after a mask is changed at every line.
abbrev unmask_row : ℕ → ℕ → ℕ → Bool
unmask_row i j m = agree (bit (unmasked m i) j) (if i == j then false else bit m j)

abbrev mask_row : ℕ → ℕ → ℕ → Bool
mask_row i j m = agree (bit (masked m i) j) (if i == j then true else bit m j)

unmask_table : all_below 8 (λ i. all_below 8 (λ j. all_below 256 (unmask_row i j))) ≡ true
unfolding all_below unmasked
unmask_table = refl

mask_table : all_below 8 (λ i. all_below 8 (λ j. all_below 256 (mask_row i j))) ≡ true
unfolding all_below masked
mask_table = refl

bytes_table : all_below 8 (λ i. all_below 256 (λ m. ltb (unmasked m i) 256)) ≡ true
unfolding all_below unmasked
bytes_table = refl

module _ (i j m : ℕ) (hi : i < 8) (hj : j < 8) (hm : m < 256) where
  bit-unmasked : bit (unmasked m i) j ≡ (if i == j then false else bit m j)
  bit-unmasked = agree→eq _ _ (
      all_below_sound 256 (unmask_row i j) m
        (all_below_sound 8 (λ k. all_below 256 (unmask_row i k)) j
          (all_below_sound 8 (λ l. all_below 8 (λ k. all_below 256 (unmask_row l k))) i unmask_table
            hi)
          hj)
        hm)

  bit-masked : bit (masked m i) j ≡ (if i == j then true else bit m j)
  bit-masked = agree→eq _ _ (
      all_below_sound 256 (mask_row i j) m
        (all_below_sound 8 (λ k. all_below 256 (mask_row i k)) j
          (all_below_sound 8 (λ l. all_below 8 (λ k. all_below 256 (mask_row l k))) i mask_table hi)
          hj)
        hm)

unmasked-lt : (m i : ℕ) → i < 8 → m < 256 → unmasked m i < 256
unmasked-lt m i hi hm = ltb→lt _ _ (
    all_below_sound 256 (λ k. ltb (unmasked k i) 256) m
      (all_below_sound 8 (λ l. all_below 256 (λ k. ltb (unmasked k l) 256)) i bytes_table hi) hm)

masked-lt : (m i : ℕ) → masked m i < 256
unfolding masked
masked-lt m i = omega arith

-- Both operations keep the masks in a byte.
pub enable_irq-AreBytes : (irq : ℕ) (p : Pic) → AreBytes p → AreBytes (enable_irq irq p)
unfolding enable_irq
enable_irq-AreBytes irq p v = ground (
  arith,
  unmasked-lt p.master_mask irq,
  unmasked-lt p.slave_mask (irq - 8),
  unmasked-lt p.master_mask icw3_slave,
)

pub disable_irq-AreBytes : (irq : ℕ) (p : Pic) → AreBytes p → AreBytes (disable_irq irq p)
unfolding disable_irq
disable_irq-AreBytes irq p v = ground (
  arith,
  masked-lt p.master_mask irq,
  masked-lt p.slave_mask (irq - 8),
  masked-lt p.master_mask icw3_slave,
)

-- enable_irq lets its line through, a line of the slave too, and every line that came through before.
pub enable_irq-reaches :
    (irq j : ℕ) (p : Pic)
    → AreBytes p
    → irq ≤ num_irq
    → (j ≡ irq) ⊎ (reaches p j ≡ true)
    → reaches (enable_irq irq p) j ≡ true
unfolding reaches enable_irq
enable_irq-reaches irq j p v h r = ground (
  arith,
  bit-unmasked irq j p.master_mask,
  bit-unmasked irq 2 p.master_mask,
  bit-unmasked 2 j p.master_mask,
  bit-unmasked 2 2 p.master_mask,
  bit-unmasked (irq - 8) (j - 8) p.slave_mask,
)

-- disable_irq of a line of the master, but for line 2, stops that line and no other.
pub disable_irq-reaches_master :
    (irq j : ℕ) (p : Pic)
    → AreBytes p
    → irq < 8
    → irq ≢ 2
    → reaches (disable_irq irq p) j ≡ (if irq == j then false else reaches p j)
unfolding reaches disable_irq
disable_irq-reaches_master irq j p v h n =
    ground (arith, bit-masked irq j p.master_mask, bit-masked irq 2 p.master_mask)

-- disable_irq of a line of the slave stops every line of the slave, since it masks line 2 of the
-- master too; it leaves the lines of the master but line 2.
pub disable_irq-reaches_slave :
    (irq j : ℕ) (p : Pic)
    → AreBytes p
    → 8 ≤ irq
    → irq ≤ num_irq
    → reaches (disable_irq irq p) j
      ≡ (if leb 8 j then false else (if j == 2 then false else reaches p j))
unfolding reaches disable_irq
disable_irq-reaches_slave irq j p v h n =
    ground (arith, bit-masked 2 j p.master_mask, bit-masked 2 2 p.master_mask)
