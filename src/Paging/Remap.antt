-- ===== src/Paging/Remap.antt =====
-- What the remapping routines of paging.c do to the translation of addresses.
use ece391_os.Common.{
  ℕ, ◌+◌, ◌*◌, ◌/◌, ◌%◌, ◌^◌, ◌≡◌, ◌≢◌, ◌⊎◌, refl, arith, bit_or, bit_or-flags, ◌==◌, false,
  if◌then◌else◌, some, inl, inr,
}
use ece391_os.Paging.{Paging, page_remap, table_remap, vidmem_remap, table_to_page_mapping}
use ece391_os.Paging.Translate.{translate, ArePlaced}

-- page_remap maps the 4 MB that hold `virt` to the 4 MB page `q`, whatever they were mapped to, and
-- leaves every other address where it was; the TLB is flushed.
pub page_remap-translate :
    (virt q a : ℕ) (p : Paging)
    → (translate (page_remap virt (q * 2 ^ 22) p) a
        ≡ (if a / 2 ^ 22 == virt / 2 ^ 22 then some (q * 2 ^ 22 + a % 2 ^ 22) else translate p a))
      × ((page_remap virt (q * 2 ^ 22) p).stale ≡ false)
unfolding page_remap translate
page_remap-translate virt q a p =
    let e : bit_or (q * 2 ^ 22) 0x87 ≡ q * 2 ^ 22 + 0x87 = bit_or-flags 22 q 0x87 (omega arith) in
    (ground (arith, e), refl)

addresses_differ : {a b i j : ℕ} → a ≡ i * 2 ^ 12 → b ≡ j * 2 ^ 12 → i ≢ j → a ≢ b
addresses_differ p q h e = h (omega arith)

-- `a` lies in page `page` of the region of `virt`, or in another region that the table at `table`
-- does not map.
abbrev pub Settled : Paging → ℕ → ℕ → ℕ → ℕ → Type 0
Settled p table virt page a =
    ((a / 2 ^ 22 ≡ virt / 2 ^ 22) × (a / 4096 % 1024 ≡ page))
    ⊎ ((a / 2 ^ 22 ≢ virt / 2 ^ 22) × (p.page_directory (a / 2 ^ 22) / 4096 * 4096 ≢ table))

-- table_to_page_mapping maps page `cur_page` of the region of `virt` to the physical page `q`, and
-- leaves every address of another region that does not use the user table.
pub table_to_page_mapping-translate :
    (virt q cur_page a : ℕ) (p : Paging)
    → ArePlaced p
    → Settled p p.user_page_table_addr virt cur_page a
    → translate (table_to_page_mapping virt (q * 2 ^ 12) cur_page p) a
      ≡ (if a / 2 ^ 22 == virt / 2 ^ 22 then some (q * 2 ^ 12 + a % 4096) else translate p a)
unfolding table_to_page_mapping translate
table_to_page_mapping-translate virt q cur a p w h =
    let e : bit_or (q * 2 ^ 12) 7 ≡ q * 2 ^ 12 + 7 = bit_or-flags 12 q 7 (omega arith) in
    let u : bit_or p.user_page_table_addr 7 ≡ p.user_page_table_addr + 7 =
      rw w.user_aligned (bit_or-flags 12 w.user_number 7 (omega arith)) in
    ground (arith, e, u)

-- table_remap is that mapping of the first page of the region.
table_remap-eq :
    (virt phys : ℕ) (p : Paging) → table_remap virt phys p ≡ table_to_page_mapping virt phys 0 p
unfolding table_remap table_to_page_mapping
table_remap-eq virt phys p = refl

pub table_remap-translate :
    (virt q a : ℕ) (p : Paging)
    → ArePlaced p
    → Settled p p.user_page_table_addr virt 0 a
    → translate (table_remap virt (q * 2 ^ 12) p) a
      ≡ (if a / 2 ^ 22 == virt / 2 ^ 22 then some (q * 2 ^ 12 + a % 4096) else translate p a)
table_remap-translate virt q a p w h =
    rw (table_remap-eq virt (q * 2 ^ 12) p) (table_to_page_mapping-translate virt q 0 a p w h)

-- vidmem_remap maps the first page of the region of `virt` to the physical page `q`, and leaves every
-- address of another region that does not use the video table.
pub vidmem_remap-translate :
    (virt q a : ℕ) (p : Paging)
    → ArePlaced p
    → Settled p p.video_page_table_addr virt 0 a
    → translate (vidmem_remap virt (q * 2 ^ 12) p) a
      ≡ (if a / 2 ^ 22 == virt / 2 ^ 22 then some (q * 2 ^ 12 + a % 4096) else translate p a)
unfolding vidmem_remap translate
vidmem_remap-translate virt q a p w h =
    let e : bit_or (q * 2 ^ 12) 7 ≡ q * 2 ^ 12 + 7 = bit_or-flags 12 q 7 (omega arith) in
    let v : bit_or p.video_page_table_addr 7 ≡ p.video_page_table_addr + 7 =
      rw w.video_aligned (bit_or-flags 12 w.video_number 7 (omega arith)) in
    let (t≢v, u≢v) : (p.page_table_addr ≢ p.video_page_table_addr)
        × (p.user_page_table_addr ≢ p.video_page_table_addr) =
      (
        addresses_differ w.table_aligned w.video_aligned w.table_ne_video,
        addresses_differ w.user_aligned w.video_aligned w.user_ne_video,
      ) in
    elim h [
      | inl (r, g) ↦
          let back : (p.video_page_table_addr + 7) / 4096 * 4096 ≡ p.video_page_table_addr =
            omega (arith, w.video_aligned) in
          ground (arith, e, v, back, t≢v, u≢v)
      | inr (r, g) ↦ ground (arith, t≢v, u≢v)
    ]
