-- ===== src/FileSystem/Blocks.antt =====
-- The loop of read_data in filesys.c: block after block, the next bytes of the file are delivered.
use ece391_os.Common.{
  ℕ, zero, suc, ◌+◌, ◌-◌, ◌*◌, ◌/◌, ◌%◌, ◌^◌, ◌≤◌, ◌<◌, ◌≡◌, ◌∙◌, ap, arith, leb, ℤ, pos, u32,
  Bool-cases, inl, inr, ne→==, false,
}
use ece391_os.Memory.{Mem, load32, memcpy}
use ece391_os.Memory.Copy.{Ascends, memcpy_lem}
use ece391_os.FileSystem.{read_blocks, read_from}
use ece391_os.FileSystem.Image.{
  data_blocks, inode_at, blocks_at, image_end, size, block_no, file_byte, IsFile, ApartFromImage,
  Delivered,
}

pub load32_agree :
    (m m' : Mem) (a : ℕ) → ((b : ℕ) → a ≤ b → b < a + 4 → m b ≡ m' b) → load32 m a ≡ load32 m' a
unfolding load32
load32_agree m m' a h = ground (arith, h a, h (a + 1), h (a + 2), h (a + 3))

-- Bytes of one block.
same_block :
    (p i : ℕ) → i < 4096 - p % 4096 → ((p + i) / 4096 ≡ p / 4096) × ((p + i) % 4096 ≡ p % 4096 + i)
same_block p i h = omega arith

module _ (m0 : Mem) (base inode offset buf n : ℕ) (file : IsFile m0 base inode)
    (apart : ApartFromImage m0 base buf n) (inside : offset + n ≤ size m0 base inode) where
  -- The image still reads as it did.
  image_same :
      (m : Mem) (k a : ℕ)
      → Delivered m0 base inode offset buf k m
      → k ≤ n
      → base ≤ a
      → a < image_end m0 base
      → m a ≡ m0 a
  image_same m k a d h p q = ground (arith, d a)

  load_same :
      (m : Mem) (k a : ℕ)
      → Delivered m0 base inode offset buf k m
      → k ≤ n
      → base ≤ a
      → a + 4 ≤ image_end m0 base
      → load32 m a ≡ load32 m0 a
  load_same m k a d h p q =
      load32_agree m m0 a (λ b l r. image_same m k b d h (omega arith) (omega arith))

  block_same :
      (m : Mem) (k j : ℕ)
      → Delivered m0 base inode offset buf k m
      → k ≤ n
      → 4096 * j < size m0 base inode
      → load32 m (inode_at base inode + 4 * (j + 1)) ≡ block_no m0 base inode j
  block_same m k j d h p =
      load_same m k (inode_at base inode + 4 * (j + 1)) d h (omega arith)
        (omega (arith, file.inode_lt, file.size_le))

  -- A block of the file lies in the image.
  block_inside :
      (j : ℕ)
      → 4096 * j < size m0 base inode
      → (base ≤ blocks_at m0 base + 4096 * block_no m0 base inode j)
        × (blocks_at m0 base + 4096 * block_no m0 base inode j + 4096 ≤ image_end m0 base)
  block_inside j h = omega (arith, file.block_lt j h)

  -- A byte of the source of a copy, and what the file holds there.
  chunk_byte :
      (m : Mem) (k i : ℕ)
      → Delivered m0 base inode offset buf k m
      → k ≤ n
      → offset + k < size m0 base inode
      → i < 4096 - (offset + k) % 4096
      → m (
          blocks_at m0 base
          + 4096 * block_no m0 base inode ((offset + k) / 4096)
          + (offset + k) % 4096
          + i)
        ≡ file_byte m0 base inode (offset + (k + i))
  chunk_byte m k i d h p q =
      let (e1, e2) = same_block (offset + k) i q in
      let a : offset + (k + i) ≡ offset + k + i = omega arith in
      let (lo, hi) = block_inside ((offset + k) / 4096) (omega arith) in
      image_same m k _ d h (omega arith) (omega arith) ∙ rw (a, e1, e2) (ap m0 (omega arith))

  -- A copy out of one block delivers the bytes that come next.
  deliver_chunk :
      (m : Mem) (k c src : ℕ)
      → Delivered m0 base inode offset buf k m
      → k + c ≤ n
      → offset + k < size m0 base inode
      → c ≤ 4096 - (offset + k) % 4096
      → src
        ≡ blocks_at m0 base
          + 4096 * block_no m0 base inode ((offset + k) / 4096)
          + (offset + k) % 4096
      → Delivered m0 base inode offset buf (k + c) (memcpy m (buf + k) src c)
  deliver_chunk m k c src d h l p e b =
      let (lo, hi) = block_inside ((offset + k) / 4096) (omega arith) in
      let clear : Ascends (buf + k) src c = ground arith in
      memcpy_lem m (buf + k) src c b clear
      ∙ rw e (ground (arith, d b, chunk_byte m k (b - (buf + k)) d (omega arith) l))

  deliver_first :
      (c src : ℕ)
      → c ≤ n
      → offset < size m0 base inode
      → c ≤ 4096 - offset % 4096
      → src ≡ blocks_at m0 base + 4096 * block_no m0 base inode (offset / 4096) + offset % 4096
      → Delivered m0 base inode offset buf c (memcpy m0 buf src c)
  deliver_first c src h l p e =
      let (o, b, z) : (offset + 0 ≡ offset) × (buf + 0 ≡ buf) × (0 + c ≡ c) = omega arith in
      rw z at (rw b at (rw o at (deliver_chunk m0 0 c src (λ a. ground arith)))) h l p e

  -- All `n` bytes are delivered, and their number is returned.
  abbrev pub Done : ℤ × Mem → Type 0
  Done r = (r.0 ≡ pos n) × Delivered m0 base inode offset buf n r.1

  -- The number of a block as the loop reads it, and where its bytes are.
  next_block :
      (m : Mem) (k a : ℕ)
      → Delivered m0 base inode offset buf k m
      → k ≤ n
      → offset + k < size m0 base inode
      → a ≡ inode_at base inode + 4 * ((offset + k) / 4096 + 1)
      → let block = load32 m a in
        (leb (data_blocks m0 base) block ≡ false)
        × (blocks_at m0 base + u32 (4096 * block) + (offset + k) % 4096
            ≡ blocks_at m0 base
              + 4096 * block_no m0 base inode ((offset + k) / 4096)
              + (offset + k) % 4096)
  next_block m k a d h l e =
      let j = (offset + k) / 4096 in
      let same : load32 m a ≡ block_no m0 base inode j =
        ap (load32 m) e ∙ block_same m k j d h (omega arith) in
      let lt = file.block_lt j (omega arith) in rw same (ground arith, omega (arith, file.fits))

  -- The loop, with `k` bytes delivered and `len` to come.
  read_blocks_lem :
      (fuel : ℕ) (m : Mem) (k len ptr b count : ℕ)
      → Delivered m0 base inode offset buf k m
      → k + len ≡ n
      → 0 < len
      → len ≤ fuel
      → n < 2 ^ 31
      → (offset + k) % 4096 ≡ 0
      → ptr ≡ inode_at base inode + 4 * ((offset + k) / 4096)
      → b ≡ buf + k
      → count ≡ k
      → Done (read_blocks fuel m (blocks_at m0 base) (data_blocks m0 base) ptr b len count)
  unfolding read_blocks
  read_blocks_lem zero m k len ptr b count d e l p h z ep eb ec = absurd (omega arith)
  read_blocks_lem (suc fuel) m k len ptr b count d e l p h z ep eb ec =
      let (in_range, at_src) =
        next_block m k (ptr + 4) d (omega arith) (omega arith) (omega arith) in
      let src = blocks_at m0 base + u32 (4096 * load32 m (ptr + 4)) in
      let from : src
          ≡ blocks_at m0 base
            + 4096 * block_no m0 base inode ((offset + k) / 4096)
            + (offset + k) % 4096 =
        omega (arith, at_src) in
      elim (Bool-cases (leb len 4096)) [
        | inl short ↦
            let all = deliver_chunk m k len src d (omega arith) (omega arith) (ground arith) from in
            rw (ne→== len 0 (omega arith), in_range, short, eb, ec)
              (ground arith, λ a. ground (arith, all a))
        | inr long ↦
            let all =
              deliver_chunk m k 4096 src d (ground arith) (omega arith) (omega arith) from in
            rw (ne→== len 0 (omega arith), in_range, long, eb)
              (read_blocks_lem fuel (memcpy m (buf + k) src 4096) (k + 4096) (len - 4096) (ptr + 4)
                (buf + k + 4096) (u32 (count + 4096)) all (ground arith) (ground arith)
                (ground arith) h (omega arith) (omega arith) (omega arith) (ground arith))
      ]

  pub read_from_lem :
      n < 2 ^ 31
      → offset < size m0 base inode
      → Done (
          read_from m0 (blocks_at m0 base) (data_blocks m0 base) (inode_at base inode) offset buf n)
  unfolding read_from
  read_from_lem h l =
      let o : offset + 0 ≡ offset = omega arith in
      let ptr = inode_at base inode + (offset / 4096 + 1) * 4 in
      let (in_range, at_src) =
        rw o at (next_block m0 0 ptr (λ a. ground arith)) (omega arith) l (omega arith) in
      let src = blocks_at m0 base + u32 (4096 * load32 m0 ptr) + offset % 4096 in
      let fits : u32 (offset % 4096 + n) ≡ offset % 4096 + n = omega (arith, h) in
      elim (Bool-cases (leb (offset % 4096 + n) 4096)) [
        | inl short ↦
            let all = deliver_first n src (omega arith) l (ground arith) at_src in
            rw (in_range, fits, short) (ground arith, all)
        | inr long ↦
            let first = 4096 - offset % 4096 in
            let all = deliver_first first src (ground arith) l (omega arith) at_src in
            rw (in_range, fits, long)
              (read_blocks_lem (n - first) (memcpy m0 buf src first) first (n - first) ptr
                (buf + first) first all (ground arith) (ground arith) (omega arith) h (omega arith)
                (omega arith) (omega arith) (omega arith))
      ]
