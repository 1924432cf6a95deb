-- ===== src/FileSystem/Sequence.antt =====
-- Reads of one file after another (file_read of filesys.c).
use ece391_os.Common.{
  ℕ, ◌+◌, ◌-◌, ◌*◌, ◌/◌, ◌%◌, ◌^◌, ◌≤◌, ◌<◌, ◌≡◌, refl, sym, ◌∙◌, subst, arith, Bool-cases, inl,
  inr, pos, leb, ltb, ◌&&◌,
}
use ece391_os.Memory.{Mem, load32}
use ece391_os.FileSystem.{file_read}
use ece391_os.FileSystem.Image.{
  inodes, data_blocks, inode_at, image_end, size, block_no, file_byte, IsFile, ApartFromImage,
  Delivered,
}
use ece391_os.FileSystem.Blocks.{load32_agree}
use ece391_os.FileSystem.Data.{readable, read_data_lem}

-- The image of `m` is in `m'` too.
abbrev pub Keeps : Mem → Mem → ℕ → Type 0
Keeps m m' base = (a : ℕ) → base ≤ a → a < image_end m base → m' a ≡ m a

pub Delivered-Keeps :
    (m m' : Mem) (base inode offset buf k : ℕ)
    → ApartFromImage m base buf k
    → Delivered m base inode offset buf k m'
    → Keeps m m' base
Delivered-Keeps m m' base inode offset buf k apart d a p q = ground (arith, d a)

load_kept :
    (m m' : Mem) (base a : ℕ)
    → Keeps m m' base
    → base ≤ a
    → a + 4 ≤ image_end m base
    → load32 m' a ≡ load32 m a
load_kept m m' base a h p q = load32_agree m' m a (λ b l r. h b (omega arith) (omega arith))

module _ (m m' : Mem) (base inode : ℕ) (h : Keeps m m' base) (file : IsFile m base inode) where
  pub inodes_kept : inodes m' base ≡ inodes m base
  inodes_kept = load_kept m m' base (base + 4) h (omega arith) (omega arith)

  pub data_blocks_kept : data_blocks m' base ≡ data_blocks m base
  data_blocks_kept = load_kept m m' base (base + 8) h (omega arith) (omega arith)

  pub size_kept : size m' base inode ≡ size m base inode
  size_kept =
      load_kept m m' base (inode_at base inode) h (omega arith) (omega (arith, file.inode_lt))

  block_no_kept :
      (j : ℕ) → 4096 * j < size m base inode → block_no m' base inode j ≡ block_no m base inode j
  block_no_kept j l =
      load_kept m m' base (inode_at base inode + 4 * (j + 1)) h (omega arith)
        (omega (arith, file.inode_lt, file.size_le))

  pub IsFile-kept : IsFile m' base inode
  IsFile-kept = record {
    inode_lt = rw inodes_kept file.inode_lt;
    fits = rw (inodes_kept, data_blocks_kept) file.fits;
    size_le = rw size_kept file.size_le;
    block_lt = λ j l. ground (arith, size_kept, data_blocks_kept, block_no_kept j, file.block_lt j);
  }

  pub file_byte_kept :
      (i : ℕ) → i < size m base inode → file_byte m' base inode i ≡ file_byte m base inode i
  file_byte_kept i l =
      let low : 4096 * (i / 4096) < size m base inode = omega arith in
      rw (inodes_kept, block_no_kept (i / 4096) low)
        (h _ (omega arith) (omega (arith, file.block_lt (i / 4096) low)))

-- file_read returns the number of bytes from the file position to the end of the file, and `nbytes`
-- at most, moves the position by that number, and leaves those bytes of the file in the buffer and
-- changes nothing else, if the file is well-formed and the buffer lies apart from the image.
pub file_read_lem :
    (m : Mem) (base inode position buf nbytes : ℕ)
    → IsFile m base inode
    → ApartFromImage m base buf (readable m base inode position nbytes)
    → nbytes < 2 ^ 31
    → position ≤ size m base inode
    → let n = readable m base inode position nbytes in
      let (r, position', m') = file_read m base inode position buf (pos nbytes) in
      (r ≡ pos n) × (position' ≡ position + n) × Delivered m base inode position buf n m'
unfolding file_read
file_read_lem m base inode position buf nbytes file apart h l =
    let same : nbytes % 2 ^ 32 ≡ nbytes = omega arith in
    let (r, d) =
      read_data_lem m base inode position buf nbytes file apart h (omega (arith, file.size_le)) in
    rw (same, r) (refl, ground (arith, file.size_le), d)

-- What two deliveries in a row leave is one delivery of both.
Delivered-twice :
    (m m' m'' : Mem) (base inode offset buf k l : ℕ)
    → IsFile m base inode
    → ApartFromImage m base buf (k + l)
    → offset + (k + l) ≤ size m base inode
    → Delivered m base inode offset buf k m'
    → Delivered m' base inode (offset + k) (buf + k) l m''
    → Delivered m base inode offset buf (k + l) m''
Delivered-twice m m' m'' base inode offset buf k l file apart inside d d' b =
    let keeps = Delivered-Keeps m m' base inode offset buf k (ground arith) d in
    elim (Bool-cases (leb (buf + k) b && ltb b (buf + k + l))) [
      | inl y ↦
          let a : offset + k + (b - (buf + k)) ≡ offset + (b - buf) = ground arith in
          ground
            (arith, d b, d' b, y, a, file_byte_kept m m' base inode keeps file (offset + (b - buf)))
      | inr e ↦ ground (arith, d b, d' b, e)
    ]

-- The second of two reads, on a memory that still has the image.
read_after :
    (m m' : Mem) (base inode position buf k b l : ℕ)
    → Keeps m m' base
    → IsFile m base inode
    → ApartFromImage m base buf l
    → b < 2 ^ 31
    → position + k ≤ size m base inode
    → l ≡ readable m base inode (position + k) b
    → let (r, p, m'') = file_read m' base inode (position + k) buf (pos b) in
      (r ≡ pos l) × (p ≡ position + k + l) × Delivered m' base inode (position + k) buf l m''
read_after m m' base inode position buf k b l keeps file apart h p e =
    let file' = IsFile-kept m m' base inode keeps file in
    let same : readable m' base inode (position + k) b ≡ l =
      rw (size_kept m m' base inode keeps file) (sym e) in
    let clear : ApartFromImage m' base buf l =
      rw (inodes_kept m m' base inode keeps file, data_blocks_kept m m' base inode keeps file)
        apart in
    subst
      (λ n.
        let (r, p, m'') = file_read m' base inode (position + k) buf (pos b) in
        (r ≡ pos n) × (p ≡ position + k + n) × Delivered m' base inode (position + k) buf n m'')
      same
      (file_read_lem m' base inode (position + k) buf b file' (rw same clear) h
        (rw (size_kept m m' base inode keeps file) p))

-- Two reads of `a` and `b` bytes into adjacent buffers are one read of `a + b` bytes: the results
-- add up to the readable bytes, the position is behind them, and they are in the buffer in order, if the
-- file is well-formed, the buffer lies apart from the image, `a + b` is below 2^31 and the position is
-- not behind the end of the file.
pub file_read_twice :
    (m : Mem) (base inode position buf a b : ℕ)
    → IsFile m base inode
    → ApartFromImage m base buf (readable m base inode position (a + b))
    → a + b < 2 ^ 31
    → position ≤ size m base inode
    → let n = readable m base inode position (a + b) in
      let k = readable m base inode position a in
      let (r1, p1, m1) = file_read m base inode position buf (pos a) in
      let (r2, p2, m2) = file_read m1 base inode p1 (buf + k) (pos b) in
      (r1 ≡ pos k)
      × (r2 ≡ pos (n - k))
      × (p2 ≡ position + n)
      × Delivered m base inode position buf n m2
file_read_twice m base inode position buf a b file apart h l =
    let k = readable m base inode position a in
    let n = readable m base inode position (a + b) in
    let (e1, q1, d1) =
      file_read_lem m base inode position buf a file (ground arith) (omega arith) l in
    let m1 = (file_read m base inode position buf (pos a)).2 in
    let keeps = Delivered-Keeps m m1 base inode position buf k (ground arith) d1 in
    let m2 = (file_read m1 base inode (position + k) (buf + k) (pos b)).2 in
    let (e2, q2, d2) =
      read_after m m1 base inode position (buf + k) k b (n - k) keeps file (ground arith)
        (omega arith) (omega arith) (ground arith) in
    let whole : k + (n - k) ≡ n = ground arith in
    rw q1 (
      e1,
      e2,
      q2 ∙ ground arith,
      subst (λ c. Delivered m base inode position buf c m2) whole
          (Delivered-twice m m1 m2 base inode position buf k (n - k) file (rw whole apart)
            (ground arith) d1 d2),
    )
