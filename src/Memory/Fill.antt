-- ===== src/Memory/Fill.antt =====
-- What memset, memset_word and memset_dword of lib.c leave in memory.
use ece391_os.Common.{
  ℕ, zero, suc, ◌+◌, ◌-◌, ◌*◌, ◌/◌, ◌%◌, ◌^◌, ◌≤◌, ◌<◌, ◌≡◌, refl, arith, Bool, true, leb, ltb,
  ◌==◌, ◌&&◌, if◌then◌else◌, ==→eq, all_below, all_below_sound,
}
use ece391_os.Memory.{
  Mem, upd, store16, store32, memset_top, rep_stosl, memset_bottom, spread, memset, memset_word,
}

-- `m` with `c` at the `n` addresses from `s` on.
abbrev pub filled : Mem → ℕ → ℕ → ℕ → Mem
filled m s c n b = if leb s b && ltb b (s + n) then c else m b

memset_bottom_lem : (n : ℕ) (m : Mem) (s c b : ℕ) → memset_bottom n m s c b ≡ filled m s c n b
unfolding memset_bottom upd
memset_bottom_lem zero m s c b = ground arith
memset_bottom_lem (suc n) m s c b = ground (arith, memset_bottom_lem n (upd m s c) (s + 1) c b)

-- The first loop has filled what it has moved over.
memset_top_lem :
    (n : ℕ) (m : Mem) (s c b : ℕ)
    → let (m1, edi, ecx) = memset_top n m s c in
      (edi + ecx ≡ s + n) × (s ≤ edi) × (m1 b ≡ filled m s c (edi - s) b)
unfolding memset_top upd
memset_top_lem zero m s c b = ground arith
memset_top_lem (suc n) m s c b = ground (arith, memset_top_lem n (upd m s c) (s + 1) c b)

abbrev AllBytes : ℕ → ℕ → Type 0
AllBytes c w =
    (w % 256 ≡ c) × (w / 2 ^ 8 % 256 ≡ c) × (w / 2 ^ 16 % 256 ≡ c) × (w / 2 ^ 24 % 256 ≡ c)

rep_stosl_lem :
    (n : ℕ) (m : Mem) (s w c b : ℕ)
    → AllBytes c w
    → let (m1, edi) = rep_stosl n m s w in (edi ≡ s + 4 * n) × (m1 b ≡ filled m s c (4 * n) b)
unfolding rep_stosl store32
rep_stosl_lem zero m s w c b h = ground arith
rep_stosl_lem (suc n) m s w c b h = ground (arith, rep_stosl_lem n (store32 m s w) (s + 4) w c b h)

abbrev spread_value : ℕ → Bool
spread_value c = spread c == c * 16843009

spread_table : all_below 256 spread_value ≡ true
unfolding all_below spread
spread_table = refl

spread-AllBytes : (c : ℕ) → c < 256 → AllBytes c (spread c)
spread-AllBytes c h = omega (arith, ==→eq _ _ (all_below_sound 256 spread_value c spread_table h))

-- memset writes the low byte of `c` at the `n` addresses from `s` on, and nothing else, whatever
-- the alignment of `s`.
pub memset_lem : (m : Mem) (s c n b : ℕ) → memset m s c n b ≡ filled m s (c % 256) n b
unfolding memset
memset_lem m s c n b =
    let (m1, edi, ecx) = memset_top n m s (c % 256) in
    let (m2, edi2) = rep_stosl (ecx / 4) m1 edi (spread (c % 256)) in
    ground (
      arith,
      memset_top_lem n m s (c % 256) b,
      rep_stosl_lem (ecx / 4) m1 edi (spread (c % 256)) (c % 256) b
          (spread-AllBytes (c % 256) (omega arith)),
      memset_bottom_lem (ecx % 4) m2 edi2 (c % 256) b,
    )

-- memset_word writes the word `c`, low byte first, at the `n` words from `s` on, and nothing else.
pub memset_word_lem :
    (n : ℕ) (m : Mem) (s c b : ℕ)
    → memset_word n m s c b ≡ (
        if leb s b && ltb b (s + 2 * n)
        then (if (b - s) % 2 == 0 then c % 256 else c / 256 % 256)
        else m b)
unfolding memset_word store16
memset_word_lem zero m s c b = ground arith
memset_word_lem (suc n) m s c b = ground (arith, memset_word_lem n (store16 m s c) (s + 2) c b)
