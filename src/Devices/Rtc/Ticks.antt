-- ===== src/Devices/Rtc/Ticks.antt =====
-- The clock's interrupts, as the three terminals see them (rtc.c).
use ece391_os.Common.{
  ℕ, zero, suc, ◌<◌, ◌≡◌, ◌≢◌, arith, none, some, List, [], ◌∷◌, get_or, set, length, pos,
  get_or-set_self, get_or-set_ne,
}
use ece391_os.Devices.Rtc.{Rtc, rtc_interrupt_handler, rtc_read, set_flags}

-- A flag for each of the three terminals.
pub record HasFlags (r : Rtc) : Type 0 where
  pub three : length r.interrupt_occurred ≡ 3

set_flags_lem :
    (flags : List ℕ) (t : ℕ)
    → length flags ≡ 3
    → t < 3
    → (get_or (set_flags 3 flags 0) t 0 ≡ 1) × (length (set_flags 3 flags 0) ≡ 3)
unfolding set_flags
set_flags_lem (a ∷ b ∷ c ∷ []) zero h p = ground arith
set_flags_lem (a ∷ b ∷ c ∷ []) (suc zero) h p = ground arith
set_flags_lem (a ∷ b ∷ c ∷ []) (suc (suc zero)) h p = ground arith
set_flags_lem fs t h p = absurd (omega arith)

-- After an interrupt each of the terminals can read once: its read returns 0, a second read of it
-- waits, and the read of any other terminal still returns.
pub rtc_read_once :
    (r : Rtc) (t u : ℕ)
    → HasFlags r
    → t < 3
    → u < 3
    → t ≢ u
    → (r' : Rtc) × (r'' : Rtc) × (rtc_read t (rtc_interrupt_handler r) ≡ some (pos 0, r'))
      × (rtc_read t r' ≡ none)
      × (rtc_read u r' ≡ some (pos 0, r''))
unfolding rtc_read rtc_interrupt_handler
rtc_read_once r t u f p q n =
    let flags = set_flags 3 r.interrupt_occurred 0 in
    let (one, three) = set_flags_lem r.interrupt_occurred t f.three p in
    let (one', _) = set_flags_lem r.interrupt_occurred u f.three q in
    let r' = record (rtc_interrupt_handler r) { interrupt_occurred = set flags t 0 } in
    (
      r',
      record r' { interrupt_occurred = set (set flags t 0) u 0 },
      ground (arith, one),
      ground (arith, get_or-set_self flags t 0 0),
      ground (arith, one', get_or-set_ne flags t u 0 0 n),
    )
