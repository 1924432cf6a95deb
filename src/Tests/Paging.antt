-- ===== src/Tests/Paging.antt =====
-- Addresses before and after the routines of paging.c.
use ece391_os.Common.{◌*◌, ◌^◌, ◌≡◌, inl, refl, arith, none, some, false}
use ece391_os.Paging.{Paging, paging_init, page_remap, vidmem_remap, table_to_page_mapping}
use ece391_os.Paging.Translate.{translate, ArePlaced}
use ece391_os.Paging.Init.{paging_init-translate}
use ece391_os.Paging.Remap.{
  page_remap-translate, vidmem_remap-translate, table_to_page_mapping-translate,
}

-- Empty tables at 4 KB, 8 KB and 12 KB.
abbrev pub empty : Paging
empty = record {
  page_directory = λ i. 0;
  page_table = λ i. 0;
  user_page_table = λ i. 0;
  video_page_table = λ i. 0;
  page_table_addr = 0x1000;
  user_page_table_addr = 0x2000;
  video_page_table_addr = 0x3000;
  stale = false;
  enabled = false;
}

pub empty-ArePlaced : ArePlaced empty
empty-ArePlaced = record {
  table_number = 1;
  user_number = 2;
  video_number = 3;
  table_aligned = refl;
  user_aligned = refl;
  video_aligned = refl;
  table_ne_user = omega arith;
  table_ne_video = omega arith;
  user_ne_video = omega arith;
}

paging_init-translate_example : translate (paging_init empty) 0xB8123 ≡ some 0xB8123
paging_init-translate_example = paging_init-translate 0xB8123 empty empty-ArePlaced (omega arith)

paging_init_fault : translate (paging_init empty) 0xBC000 ≡ none
paging_init_fault = paging_init-translate 0xBC000 empty empty-ArePlaced (omega arith)

page_remap-translate_example :
    (translate (page_remap 0x8000000 (3 * 2 ^ 22) empty) 0x8048000 ≡ some 0xC48000)
    × ((page_remap 0x8000000 (3 * 2 ^ 22) empty).stale ≡ false)
page_remap-translate_example = page_remap-translate 0x8000000 3 0x8048000 empty

vidmem_remap-translate_run :
    translate (vidmem_remap 0x8800000 (0x6401 * 2 ^ 12) empty) 0x8800010 ≡ some 0x6401010
vidmem_remap-translate_run =
    vidmem_remap-translate 0x8800000 0x6401 0x8800010 empty empty-ArePlaced (inl (refl, refl))

table_to_page_mapping-translate_run :
    translate (table_to_page_mapping 0x6400000 (0x6402 * 2 ^ 12) 2 empty) 0x6402008 ≡ some 0x6402008
table_to_page_mapping-translate_run =
    table_to_page_mapping-translate 0x6400000 0x6402 2 0x6402008 empty empty-ArePlaced
      (inl (refl, refl))
