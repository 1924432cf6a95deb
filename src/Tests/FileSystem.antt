-- ===== src/Tests/FileSystem.antt =====
-- A file system image with one file of 5 bytes in one block, and reads of the file.
use ece391_os.Common.{◌≡◌, ◌==◌, leb, if◌then◌else◌, inr, arith, pos}
use ece391_os.Memory.{Mem, load32}
use ece391_os.FileSystem.{read_data, file_read}
use ece391_os.FileSystem.Image.{IsFile, Delivered}
use ece391_os.FileSystem.Data.{read_data_lem}
use ece391_os.FileSystem.Sequence.{file_read_twice}

-- The image at 0: one inode, two data blocks, the file in block 1.
abbrev pub image : Mem
image b =
    if b == 4
    then 1
    else if b == 8
    then 2
    else if b == 4096
    then 5
    else if b == 4100
    then 1
    else if leb 12288 b
    then 65
    else 0

pub image-IsFile : IsFile image 0 0
unfolding load32
image-IsFile = record {
  inode_lt = omega arith;
  fits = omega arith;
  size_le = omega arith;
  block_lt = λ j l. ground arith;
}

-- 8 bytes are asked for, and the 3 behind offset 2 come.
read_data_lem_example :
    ((read_data image 0 0 2 20000 8).0 ≡ pos 3)
    × Delivered image 0 0 2 20000 3 (read_data image 0 0 2 20000 8).1
unfolding load32
read_data_lem_example =
    read_data_lem image 0 0 2 20000 8 image-IsFile (inr (omega arith)) (omega arith) (omega arith)

file_read_twice_example :
    let (r1, p1, m1) = file_read image 0 0 0 20000 (pos 4) in
    let (r2, p2, m2) = file_read m1 0 0 p1 20004 (pos 4) in
    (r1 ≡ pos 4) × (r2 ≡ pos 1) × (p2 ≡ 5) × Delivered image 0 0 0 20000 5 m2
unfolding load32
file_read_twice_example =
    file_read_twice image 0 0 0 20000 4 4 image-IsFile (inr (omega arith)) (omega arith)
      (omega arith)
