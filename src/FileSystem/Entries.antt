-- ===== src/FileSystem/Entries.antt =====
-- What read_dentry_by_name (filesys.c) copies of a directory entry.
use ece391_os.Common.{ℕ, ◌+◌, ◌*◌, ◌^◌, ◌≤◌, ◌<◌, ◌≡◌, ◌⊎◌, refl, ◌∙◌, ap, arith}
use ece391_os.Memory.{Mem, upd, load32, store32}
use ece391_os.CString.Length.{EndsAt}
use ece391_os.CString.Compare.{AreBytes}
use ece391_os.FileSystem.{copy_numbers, filetype_at, inode_number_at}
use ece391_os.FileSystem.Lookup.{KeepsName}

-- The address of a directory entry.
abbrev pub entry : ℕ → ℕ → ℕ
entry base i = base + (i + 1) * 64

load32-store32 : (m : Mem) (a v : ℕ) → v < 2 ^ 32 → load32 (store32 m a v) a ≡ v
unfolding load32 store32 upd
load32-store32 m a v h = ground arith

store32_apart : (m : Mem) (a v b : ℕ) → (b < a) ⊎ (a + 4 ≤ b) → store32 m a v b ≡ m b
unfolding store32 upd
store32_apart m a v b h = ground arith

load32-same :
    (m m' : Mem) (a : ℕ) → ((b : ℕ) → a ≤ b → b < a + 4 → m' b ≡ m b) → load32 m' a ≡ load32 m a
unfolding load32
load32-same m m' a h =
    rw
      (
        h a (omega arith) (omega arith),
        h (a + 1) (omega arith) (omega arith),
        h (a + 2) (omega arith) (omega arith),
        h (a + 3) (omega arith) (omega arith),
      )
      refl

load32_lt : (m : Mem) (a : ℕ) → AreBytes m → load32 m a < 2 ^ 32
unfolding load32
load32_lt m a h = omega (arith, h a, h (a + 1), h (a + 2), h (a + 3))

-- Where the directory of `count` entries, the name of `n` characters, the dentry_t and curName are.
pub record ArePlaced (m : Mem) (base fname n dentry cur : ℕ) : Type 0 where
  pub bytes : AreBytes m
  pub name : EndsAt m fname n
  pub short : n ≤ 32
  pub directory : (load32 m base + 1) * 64 < 2 ^ 32
  pub keeps : KeepsName fname n cur
  pub cur_apart : (cur + 33 ≤ base) ⊎ (entry base (load32 m base) ≤ cur)
  pub dentry_apart : (dentry + 44 ≤ base) ⊎ (entry base (load32 m base) ≤ dentry)
  pub apart : (dentry + 44 ≤ cur) ⊎ (cur + 33 ≤ dentry)

-- Two memories agree outside curName.
abbrev pub SameBut : ℕ → Mem → Mem → Type 0
SameBut cur m m' = (b : ℕ) → (b < cur) ⊎ (cur + 33 ≤ b) → m' b ≡ m b

-- The dentry_t has the type and the inode of the entry `j`.
pub record HasEntry (m : Mem) (base j dentry : ℕ) (m' : Mem) : Type 0 where
  pub filetype : load32 m' (filetype_at dentry) ≡ load32 m (entry base j + 32)
  pub inode : load32 m' (inode_number_at dentry) ≡ load32 m (entry base j + 36)

pub copy_numbers-HasEntry :
    (m0 m : Mem) (base j dentry : ℕ)
    → AreBytes m0
    → ((b : ℕ) → entry base j + 32 ≤ b → b < entry base j + 40 → m b ≡ m0 b)
    → (dentry + 44 ≤ entry base j) ⊎ (entry base j + 64 ≤ dentry)
    → HasEntry m0 base j dentry (copy_numbers m (entry base j) dentry)
copy_numbers-HasEntry m0 m base j dentry w same h =
    let d = entry base j in
    let m1 = store32 m (dentry + 36) (load32 m (d + 32)) in
    let type_same : load32 m (d + 32) ≡ load32 m0 (d + 32) =
      load32-same m0 m (d + 32) (λ b p q. same b p (omega arith)) in
    let inode_same : load32 m1 (d + 32 + 4) ≡ load32 m0 (d + 32 + 4) =
      load32-same m0 m1 (d + 32 + 4) (λ b p q.
        store32_apart m (dentry + 36) (load32 m (d + 32)) b (omega arith)
        ∙ same b (omega arith) (omega arith)) in
    let m2 = store32 m1 (dentry + 40) (load32 m1 (d + 32 + 4)) in
    record {
      filetype =
          load32-same m1 m2 (dentry + 36)
            (λ b p q. store32_apart m1 (dentry + 40) (load32 m1 (d + 32 + 4)) b (omega arith))
          ∙ (load32-store32 m (dentry + 36) (load32 m (d + 32))
                (rw type_same (load32_lt m0 (d + 32) w))
              ∙ type_same);
      inode =
          load32-store32 m1 (dentry + 40) (load32 m1 (d + 32 + 4))
            (rw inode_same (load32_lt m0 (d + 32 + 4) w))
          ∙ (inode_same ∙ ap (load32 m0) (omega arith));
    }
