-- ===== src/FileSystem/Data.antt =====
-- read_data of filesys.c against the contents of a file, given byte by byte.
use ece391_os.Common.{
  ℕ, ◌+◌, ◌-◌, ◌*◌, ◌^◌, ◌<◌, min, ◌≡◌, arith, leb, ltb, if◌then◌else◌, pos, u32, Bool-cases, inl,
  inr, false,
}
use ece391_os.Memory.{Mem}
use ece391_os.FileSystem.{read_data}
use ece391_os.FileSystem.Image.{
  inodes, inode_at, blocks_at, size, IsFile, ApartFromImage, Delivered,
}
use ece391_os.FileSystem.Blocks.{read_from_lem}

-- What a read may return, and that the whole of it is in the buffer.
abbrev pub readable : Mem → ℕ → ℕ → ℕ → ℕ → ℕ
readable m base inode offset length = min length (size m base inode - offset)

-- For a well-formed file, read_data returns the number of bytes from `offset` to the end of the
-- file, and `length` at most; it leaves exactly those bytes of the file in the buffer and changes
-- nothing else, if the buffer lies apart from the image `length` is below 2^31 and `offset + length` does not wrap.
pub read_data_lem :
    (m : Mem) (base inode offset buf length : ℕ)
    → IsFile m base inode
    → ApartFromImage m base buf (readable m base inode offset length)
    → length < 2 ^ 31
    → offset + length < 2 ^ 32
    → let n = readable m base inode offset length in
      let (r, m') = read_data m base inode offset buf length in
      (r ≡ pos n) × Delivered m base inode offset buf n m'
unfolding read_data
read_data_lem m base inode offset buf length file apart h w =
    let n = readable m base inode offset length in
    let (e1, e2) : (base + u32 (4096 * u32 (inode + 1)) ≡ inode_at base inode)
        × (base + u32 (4096 * u32 (inodes m base + 1)) ≡ blocks_at m base) =
      omega (arith, file.inode_lt, file.fits) in
    let valid : leb (inodes m base) inode ≡ false = ground (arith, file.inode_lt) in
    elim (Bool-cases (leb (size m base inode) offset)) [
      | inl past ↦ rw (e1, e2, valid, past) (ground arith, λ b. ground arith)
      | inr within ↦
          let cut : (if ltb (size m base inode) (u32 (length + offset))
                then size m base inode - offset
                else length)
              ≡ n =
            ground arith in
          rw (e1, e2, valid, within, cut)
            (read_from_lem m base inode offset buf n file apart (ground arith) (ground arith)
              (ground arith))
    ]
