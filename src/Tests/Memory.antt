-- ===== src/Tests/Memory.antt =====
-- memset, memset_word, memcpy and memmove of lib.c on small blocks.
use ece391_os.Common.{◌%◌, ◌≡◌, inr, arith, true}
use ece391_os.Memory.{Mem, memset, memset_word, memcpy, memmove}
use ece391_os.Memory.Fill.{memset_lem, memset_word_lem}
use ece391_os.Memory.Copy.{memcpy_lem}
use ece391_os.Memory.Move.{memmove_lem}

abbrev numbered : Mem
numbered b = b % 256

-- 9 bytes from an odd address on; the last of them, and the one behind it.
memset_lem_example : memset numbered 3 0x1FF 9 11 ≡ 255
memset_lem_example = memset_lem numbered 3 0x1FF 9 11

memset_behind : memset numbered 3 0x1FF 9 12 ≡ 12
memset_behind = memset_lem numbered 3 0x1FF 9 12

memset_word_second : memset_word 2 numbered 10 0x0741 13 ≡ 7
memset_word_second = memset_word_lem 2 numbered 10 0x0741 13

memcpy_lem_example : memcpy numbered 101 6 7 107 ≡ 12
memcpy_lem_example = memcpy_lem numbered 101 6 7 107 (inr (omega arith))

-- The blocks overlap, and the copy starts at the end.
memmove_lem_example : ((memmove numbered 12 10 6).0 15 ≡ 13) × ((memmove numbered 12 10 6).1 ≡ true)
memmove_lem_example = memmove_lem numbered 12 10 6 15
