-- ===== src/FileSystem/Image.antt =====
-- The file system image that filesys.c reads: where its parts lie, and what a file holds.
use ece391_os.Common.{
  ℕ, ◌+◌, ◌-◌, ◌*◌, ◌/◌, ◌%◌, ◌^◌, ◌≤◌, ◌<◌, ◌≡◌, ◌⊎◌, leb, ltb, ◌&&◌, if◌then◌else◌,
}
use ece391_os.Memory.{Mem, load32}

abbrev pub inodes : Mem → ℕ → ℕ
inodes m base = load32 m (base + 4)

abbrev pub data_blocks : Mem → ℕ → ℕ
data_blocks m base = load32 m (base + 8)

-- Where an inode, and the data blocks, lie.
abbrev pub inode_at : ℕ → ℕ → ℕ
inode_at base inode = base + 4096 * (inode + 1)

abbrev pub blocks_at : Mem → ℕ → ℕ
blocks_at m base = base + 4096 * (inodes m base + 1)

abbrev pub image_end : Mem → ℕ → ℕ
image_end m base = base + 4096 * (inodes m base + data_blocks m base + 1)

-- A file's length, the number of its j-th block, and its i-th byte.
abbrev pub size : Mem → ℕ → ℕ → ℕ
size m base inode = load32 m (inode_at base inode)

abbrev pub block_no : Mem → ℕ → ℕ → ℕ → ℕ
block_no m base inode j = load32 m (inode_at base inode + 4 * (j + 1))

abbrev pub file_byte : Mem → ℕ → ℕ → ℕ → ℕ
file_byte m base inode i = m (blocks_at m base + 4096 * block_no m base inode (i / 4096) + i % 4096)

-- A well-formed file in an image that fits below 4 GB.
pub record IsFile (m : Mem) (base inode : ℕ) : Type 0 where
  pub inode_lt : inode < inodes m base
  pub fits : image_end m base < 2 ^ 32
  pub size_le : size m base inode ≤ 1023 * 4096
  pub block_lt :
      (j : ℕ) → 4096 * j < size m base inode → block_no m base inode j < data_blocks m base

-- A buffer of `n` bytes that the image does not meet.
abbrev pub ApartFromImage : Mem → ℕ → ℕ → ℕ → Type 0
ApartFromImage m base buf n = (buf + n ≤ base) ⊎ (image_end m base ≤ buf)

-- `m` is `m0` with the `k` bytes of the file from `offset` on in the buffer.
abbrev pub Delivered : Mem → ℕ → ℕ → ℕ → ℕ → ℕ → Mem → Type 0
Delivered m0 base inode offset buf k m =
    (b : ℕ)
    → m b ≡ (
        if leb buf b && ltb b (buf + k) then file_byte m0 base inode (offset + (b - buf)) else m0 b)
