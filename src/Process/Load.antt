-- ===== src/Process/Load.antt =====
-- load_process, the part of execute (syscalls.c) behind the look-up, on the file of a program.
use ece391_os.Common.{
  ℕ, ◌+◌, ◌-◌, ◌*◌, ◌^◌, ◌<◌, ◌≤◌, ◌⊎◌, min, ◌≡◌, refl, sym, ◌∙◌, arith, Bool-cases, inl, inr, true,
  subst, leb, ltb, ◌&&◌, if◌then◌else◌, List, set, some,
}
use ece391_os.Memory.{Mem, load32}
use ece391_os.CString.Length.{EndsAt}
use ece391_os.CString.Copy.{Apart}
use ece391_os.FileSystem.{read_data}
use ece391_os.FileSystem.Image.{size, file_byte, IsFile, ApartFromImage, Delivered}
use ece391_os.FileSystem.Data.{readable, read_data_lem}
use ece391_os.FileSystem.Sequence.{
  Keeps, Delivered-Keeps, IsFile-kept, inodes_kept, data_blocks_kept, size_kept, file_byte_kept,
}
use ece391_os.Scheduler.{addr_8mb, size_4mb}
use ece391_os.Scheduler.Numbers.{IsNumbered}
use ece391_os.Process.Kernel.{Kernel, Call, entered, argbuf_at}
use ece391_os.Process.Execute.{is_elf, loaded, load_process}
use ece391_os.Process.Stacks.{push}
use ece391_os.Process.Start.{Refines, start_process-push}
use ece391_os.Process.Effect.{Refines-memory}

-- A well-formed file that starts with 0x7F, 'E', 'L', 'F' and has the four bytes of an entry point.
pub record IsProgram (m : Mem) (base inode : ℕ) : Type 0 where
  pub file : IsFile m base inode
  pub long : 28 ≤ size m base inode
  pub del : file_byte m base inode 0 ≡ 0x7F
  pub letter_e : file_byte m base inode 1 ≡ b'E'
  pub letter_l : file_byte m base inode 2 ≡ b'L'
  pub letter_f : file_byte m base inode 3 ≡ b'F'

-- LOAD_ADDRESS in the page of a process.
abbrev pub load_at : ℕ → ℕ
load_at n = addr_8mb + n * size_4mb + 0x48000

-- A read from a memory that still has the image of `m`.
Delivered-kept :
    (m m' : Mem) (base inode offset buf length : ℕ)
    → Keeps m m' base
    → IsFile m base inode
    → ApartFromImage m base buf (readable m base inode offset length)
    → length < 2 ^ 31
    → offset < 2 ^ 31
    → (b : ℕ)
    → (read_data m' base inode offset buf length).1 b ≡ (
        if leb buf b && ltb b (buf + readable m base inode offset length)
        then file_byte m base inode (offset + (b - buf))
        else m' b)
Delivered-kept m m' base inode offset buf length keeps file apart h l b =
    let same = size_kept m m' base inode keeps file in
    let (r, d) =
      read_data_lem m' base inode offset buf length (IsFile-kept m m' base inode keeps file)
        (rw
          (
            same,
            inodes_kept m m' base inode keeps file,
            data_blocks_kept m m' base inode keeps file,
          )
          apart)
        h (omega arith) in
    elim (Bool-cases (leb buf b && ltb b (buf + readable m base inode offset length))) [
      | inl y ↦
          let kept =
            file_byte_kept m m' base inode keeps file (offset + (b - buf)) (ground arith) in
          rw (d b, same, y) kept
      | inr e ↦ rw (d b, same, e) refl
    ]

-- The memory after the first four bytes of the file, and after the four of the entry point.
abbrev marked : Mem → ℕ → ℕ → ℕ → Mem
marked m base inode buf = (read_data m base inode 0 buf 4).1

abbrev entered_at : Mem → ℕ → ℕ → ℕ → Mem
entered_at m base inode buf = (read_data (marked m base inode buf) base inode 24 buf 4).1

module _ (m : Mem) (base inode buf : ℕ) (program : IsProgram m base inode)
    (apart : ApartFromImage m base buf 4) where
  marked-Delivered : Delivered m base inode 0 buf 4 (marked m base inode buf)
  marked-Delivered =
      let whole : readable m base inode 0 4 ≡ 4 = ground (arith, program.long) in
      subst (λ n. Delivered m base inode 0 buf n (marked m base inode buf)) whole
        (Delivered-kept m m base inode 0 buf 4 (λ a p q. refl) program.file (rw whole apart)
          (omega arith) (omega arith))

  is_elf-marked : is_elf (marked m base inode buf) buf ≡ true
  unfolding is_elf
  is_elf-marked =
      let d = marked-Delivered in
      ground (
        arith,
        d buf,
        d (buf + 1),
        d (buf + 2),
        d (buf + 3),
        program.del,
        program.letter_e,
        program.letter_l,
        program.letter_f,
      )

  marked-Keeps : Keeps m (marked m base inode buf) base
  marked-Keeps =
      Delivered-Keeps m (marked m base inode buf) base inode 0 buf 4 apart marked-Delivered

  entered_at-Delivered : Delivered m base inode 24 buf 4 (entered_at m base inode buf)
  entered_at-Delivered b =
      let whole : readable m base inode 24 4 ≡ 4 = ground (arith, program.long) in
      let read =
        Delivered-kept m (marked m base inode buf) base inode 24 buf 4 marked-Keeps program.file
          (rw whole apart) (omega arith) (omega arith) b in
      ground (arith, whole, read, marked-Delivered b)

  load32-entered_at : load32 (entered_at m base inode buf) buf ≡ load32 (file_byte m base inode) 24
  unfolding load32
  load32-entered_at =
      let d = entered_at-Delivered in ground (arith, d buf, d (buf + 1), d (buf + 2), d (buf + 3))

-- Where the argument (`len` characters), the buffer and the page of process `n` lie, apart from each
-- other and from the image.
pub record HasRoom (c : Call) (m : Mem) (n len : ℕ) : Type 0 where
  pub buffer : ApartFromImage m c.file_system c.buffer 4
  pub page : ApartFromImage m c.file_system (load_at n) 100000
  pub argument : EndsAt m c.arg len
  pub short : len < 256
  pub bounded : len < c.chars
  pub not_buffer : (c.arg + len < c.buffer) ⊎ (c.buffer + 4 ≤ c.arg)
  pub below : c.arg + len < load_at n
  pub not_block : Apart (argbuf_at n) c.arg (len + 1)

module _ (c : Call) (inode n len : ℕ) (m : Mem) (program : IsProgram m c.file_system inode)
    (room : HasRoom c m n len) where
  loaded_lem :
      (b : ℕ)
      → loaded c inode n (entered_at m c.file_system inode c.buffer) b ≡ (
          if leb (load_at n) b && ltb b (load_at n + readable m c.file_system inode 0 100000)
          then file_byte m c.file_system inode (0 + (b - load_at n))
          else entered_at m c.file_system inode c.buffer b)
  unfolding loaded
  loaded_lem =
      let m2 = entered_at m c.file_system inode c.buffer in
      let d2 = entered_at-Delivered m c.file_system inode c.buffer program room.buffer in
      Delivered-kept m m2 c.file_system inode 0 (load_at n) 100000
        (Delivered-Keeps m m2 c.file_system inode 24 c.buffer 4 room.buffer d2) program.file
        (ground (arith, room.page)) (omega arith) (omega arith)

  page_lem :
      (i : ℕ)
      → i < min 100000 (size m c.file_system inode)
      → loaded c inode n (entered_at m c.file_system inode c.buffer) (load_at n + i)
        ≡ file_byte m c.file_system inode i
  page_lem i l =
      let same : 0 + (load_at n + i - load_at n) ≡ i = omega arith in
      ground (arith, loaded_lem (load_at n + i), same)

  argument_lem :
      (i : ℕ)
      → i ≤ len
      → loaded c inode n (entered_at m c.file_system inode c.buffer) (c.arg + i) ≡ m (c.arg + i)
  argument_lem i l =
      let d2 = entered_at-Delivered m c.file_system inode c.buffer program room.buffer in
      ground (arith, loaded_lem (c.arg + i), d2 (c.arg + i), room.not_buffer, room.below)

-- In a state that refines stacks, load_process on the file of a program, with a free process number
-- and room, starts the process: it enters the program at the address that the file has at 24, the
-- process is on top of the shown terminal's stack, its page has the bytes of the file, 100000 at most,
-- and its block a copy of the argument.
pub load_process-push :
    (c : Call) (inode n len : ℕ) (k : Kernel) (st : ℕ → List ℕ)
    → Refines k st
    → IsNumbered k.pid_array n
    → IsProgram k.memory c.file_system inode
    → HasRoom c k.memory n len
    → let byte = file_byte k.memory c.file_system inode in
      (k' : Kernel) × (load_process c inode k ≡ some (entered (load32 byte 24), k'))
      × Refines k' (push k.terminals.screen.cur_term n st)
      × ((i : ℕ)
          → i < min 100000 (size k.memory c.file_system inode)
          → k'.memory (load_at n + i) ≡ byte i)
      × ((i : ℕ) → i ≤ len → k'.memory (argbuf_at n + i) ≡ k.memory (c.arg + i))
unfolding load_process
load_process-push c inode n len k st h new program room =
    let m2 = entered_at k.memory c.file_system inode c.buffer in
    let in_page = page_lem c inode n len k.memory program room in
    let in_arg = argument_lem c inode n len k.memory program room in
    let (k', e, refines, bytes) =
      start_process-push c inode (load32 m2 c.buffer) n len
        (record k { memory = m2; pid_array = set k.pid_array n 1 }) k.pid_array st
        (Refines-memory m2 k st h) refl new.small new.free
        (record {
          nul = in_arg len (omega arith) ∙ room.argument.nul;
          before = λ i l z. room.argument.before i l (sym (in_arg i (omega arith)) ∙ z);
        })
        room.not_block room.bounded in
    let elf = is_elf-marked k.memory c.file_system inode c.buffer program room.buffer in
    let entry = load32-entered_at k.memory c.file_system inode c.buffer program room.buffer in
    (
      k',
      rw (elf, new.gives, sym entry) e,
      refines,
      λ i l. ground (arith, bytes (load_at n + i), in_page i l, new.small, room.short),
      λ i l. ground (arith, bytes (argbuf_at n + i), in_arg i l),
    )
