-- ===== src/Devices/Rtc/Frequency.antt =====
-- The frequencies that rtc.c can set.
use ece391_os.Common.{
  ℕ, ◌+◌, ◌-◌, ◌*◌, ◌/◌, ◌%◌, ◌^◌, ◌≤◌, ◌<◌, ◌≡◌, ◌≢◌, refl, arith, true, bit_and, bit_or, ◌==◌,
  ◌||◌, Option, none, some, [], ◌∷◌, ◌++◌, all_below, all_below_sound, ==→eq, Bool, not, ◌&&◌, ltb,
  false, pos,
}
use ece391_os.Devices.Rtc.{
  Rtc, rtc_rate, rtc_set_freq, register_a, rtc_port, cmos_port, rtc_open, rtc_close,
}

abbrev nibbles : ℕ → ℕ → Bool
nibbles rate a = bit_or (bit_and 0xF0 a) rate == 16 * (a / 16) + rate

nibble_table : all_below 16 (λ rate. all_below 256 (nibbles rate)) ≡ true
unfolding all_below
nibble_table = refl

nibbles_lem :
    (rate a : ℕ) → rate < 16 → a < 256 → bit_or (bit_and 0xF0 a) rate ≡ 16 * (a / 16) + rate
nibbles_lem rate a h k = ==→eq _ _ (
    all_below_sound 256 (nibbles rate) a
      (all_below_sound 16 (λ r. all_below 256 (nibbles r)) rate nibble_table h) k)

abbrev has_rate : Option ℕ → ℕ → Bool
has_rate none k = k == 0
has_rate (some r) k = r + k == 16

abbrev sets_rate : ℕ → Bool
sets_rate k = has_rate (rtc_rate (2 ^ k)) k && not (2 ^ k == 8192 || 2 ^ k == 4096 || 2 ^ k == 2048)

-- The exponents of the frequencies up to 1024 Hz, with the rate of each.
rate_table : all_below 11 sets_rate ≡ true
unfolding all_below rtc_rate
rate_table = refl

has_rate→eq : (o : Option ℕ) (k : ℕ) → k ≢ 0 → has_rate o k ≡ true → o ≡ some (16 - k)
has_rate→eq none k n h = ground arith
has_rate→eq (some r) k n h = ground arith

power_rate :
    (k : ℕ)
    → 1 ≤ k
    → k ≤ 10
    → (rtc_rate (2 ^ k) ≡ some (16 - k))
      × ((2 ^ k == 8192 || 2 ^ k == 4096 || 2 ^ k == 2048) ≡ false)
power_rate k h l =
    let (found, other) = and→ _ _ (all_below_sound 11 sets_rate k rate_table (omega arith)) in
    (has_rate→eq (rtc_rate (2 ^ k)) k (omega arith) found, ground arith)
  where
    and→ : (a b : Bool) → (a && b) ≡ true → (a ≡ true) × (b ≡ true)
    and→ true b e = (refl, e)
    and→ false b e = cc

abbrev divides : ℕ → Bool
divides k = 2 ^ k * 2 ^ (16 - k - 1) == 32768

divider_table : all_below 11 divides ≡ true
unfolding all_below
divider_table = refl

-- For a frequency 2 ^ k from 2 to 1024 Hz, rtc_set_freq selects register A twice and writes a byte
-- to it that keeps the high four bits and has the rate 16 - k in the low four, which the clock
-- divides its 32768 Hz by as 2 ^ (rate - 1).
pub rtc_set_freq_lem :
    (a_old k : ℕ) (r : Rtc)
    → a_old < 256
    → 1 ≤ k
    → k ≤ 10
    → (byte : ℕ) × (rtc_set_freq a_old (2 ^ k) r
        ≡ some (record r {
          written =
              ((r.written ++ ((register_a, rtc_port) ∷ [])) ++ ((register_a, rtc_port) ∷ []))
              ++ ((byte, cmos_port) ∷ []);
        }))
      × (byte / 16 ≡ a_old / 16)
      × (byte % 16 ≡ 16 - k)
      × (2 ^ k * 2 ^ (byte % 16 - 1) ≡ 32768)
unfolding rtc_set_freq
rtc_set_freq_lem a_old k r h l u =
    let (rate, other) = power_rate k l u in
    let byte : bit_or (bit_and 0xF0 a_old) (16 - k) ≡ 16 * (a_old / 16) + (16 - k) =
      nibbles_lem (16 - k) a_old (omega arith) h in
    let low : bit_or (bit_and 0xF0 a_old) (16 - k) % 16 ≡ 16 - k = omega (arith, byte) in
    (
      bit_or (bit_and 0xF0 a_old) (16 - k),
      rw (other, rate),
      omega (arith, byte),
      low,
      rw low (==→eq _ _ (all_below_sound 11 divides k divider_table (omega arith))),
    )

-- A frequency that is no power of two from 2 to 8192 reaches the write with no rate.
pub rtc_set_freq_undefined :
    (a_old freq : ℕ) (r : Rtc)
    → ((k : ℕ) → 1 ≤ k → k ≤ 13 → freq ≢ 2 ^ k)
    → rtc_set_freq a_old freq r ≡ none
unfolding rtc_set_freq rtc_rate
rtc_set_freq_undefined a_old freq r h =
    let at = λ (k : ℕ) (p : ltb 0 k && ltb k 14 ≡ true). h k (ground arith) (ground arith) in
    ground (
      arith,
      at 1 refl,
      at 2 refl,
      at 3 refl,
      at 4 refl,
      at 5 refl,
      at 6 refl,
      at 7 refl,
      at 8 refl,
      at 9 refl,
      at 10 refl,
      at 11 refl,
      at 12 refl,
      at 13 refl,
    )

-- Opening and closing the clock succeeds.
pub rtc_open_returns : (a_old : ℕ) (r : Rtc) → (r' : Rtc) × (rtc_open a_old r ≡ some (pos 0, r'))
unfolding rtc_open rtc_set_freq rtc_rate
rtc_open_returns a_old r = (_, refl)

pub rtc_close_returns : (a_old : ℕ) (r : Rtc) → (r' : Rtc) × (rtc_close a_old r ≡ some (pos 0, r'))
unfolding rtc_close rtc_set_freq rtc_rate
rtc_close_returns a_old r = (_, refl)
