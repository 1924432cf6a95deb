-- ===== src/Fish.antt =====
-- The animation fish/fish.c. The functions of blink.S (mp1_ioctl and mp1_rtc_tasklet) and the call halt
-- are arguments, and so are the addresses of the locals that are read into.
pub mod Next
pub mod Row
use ece391_os.Common.{
  ℕ, zero, suc, ◌+◌, ◌*◌, ◌^◌, ◌%◌, Bool, true, false, ◌==◌, ◌&&◌, ◌||◌, not, if◌then◌else◌, Option,
  none, some, ℤ, pos, negsuc, minus_one, is_zero,
}
use ece391_os.Memory.{Mem, upd, load32, store32}
use ece391_os.User.Calls.{Machine, Run, ◌>>=◌, ◌>>◌, give, load, store, Calls, failed}

-- What is set of a struct mp1_blink_struct.
pub record Blink : Type 0 where
  pub location : ℕ
  pub on_char : ℕ
  pub off_char : ℕ
  pub on_length : ℕ
  pub off_length : ℕ

-- ece391_memset and ece391_memcpy of fish.c, with the rounds that are left.
unfoldable pub fish_memset : ℕ → Mem → ℕ → ℕ → Mem
unfolding upd
fish_memset zero m memory ch = m
fish_memset (suc n) m memory ch = fish_memset n (upd m memory (ch % 256)) (memory + 1) ch

unfoldable pub fish_memcpy : ℕ → Mem → ℕ → ℕ → Mem
unfolding upd
fish_memcpy zero m dest src = m
fish_memcpy (suc n) m dest src = fish_memcpy n (upd m dest (m src)) (dest + 1) (src + 1)

abbrev pub blink_size : ℕ
blink_size = 16

-- blink_array[i].location
abbrev location_of : Mem → ℕ → ℕ → ℕ
location_of m blink_array i =
    m (blink_array + i * blink_size) + m (blink_array + i * blink_size + 1) * 256

-- The first entry of the array without a location, if there is one among those that are left.
unfoldable pub malloc_from : ℕ → Mem → ℕ → ℕ → Option ℕ
malloc_from zero m blink_array i = none
malloc_from (suc rounds) m blink_array i =
    let rest = malloc_from rounds m blink_array (i + 1) in
    if location_of m blink_array i == 0 then some (blink_array + i * blink_size) else rest

pub mp1_malloc : Mem → ℕ → Option ℕ
unfolding malloc_from
mp1_malloc m blink_array = malloc_from 2000 m blink_array 0

pub mp1_free : Mem → ℕ → Mem
unfolding fish_memset
mp1_free m memory = fish_memset blink_size m memory 0

abbrev pub visible : ℕ → Bool
visible ch = not (ch == 32) && not (ch == 10)

-- The two characters of a place on the screen, a space behind the end of a line.
abbrev pub blink_at : ℕ → ℕ → ℕ → ℕ → Blink
blink_at row col x y = record {
  location = (row * 80 + col + 40) % 2 ^ 16;
  on_char = if x == 10 then 32 else x;
  off_char = if y == 10 then 32 else y;
  on_length = 15;
  off_length = 15;
}

module _ {W : Type 0} (c : Calls W) where
  open c use {ece391_read, ece391_close}

  -- The next character of a file, unless its line has ended. The result says whether the file has.
  unfoldable pub next_char : ℕ → ℤ → Bool → Run W Bool
  unfolding store
  next_char at fd eof = do
    ch ← load at
    if ch == 10 then give eof else do
      num_bytes ← ece391_read fd at 1
      if is_zero num_bytes then (do store at 10; give true) else give eof

  -- Before the next line: a file that has ended is closed.
  unfoldable pub end_row : ℕ → ℤ → Bool → Run W (Unit {0})
  unfolding store
  end_row at fd true = do store at 10; r ← ece391_close fd; give tt
  end_row at fd false = store at 48

unfoldable pub add_blink : {W : Type 0} → (Blink → Run W ℤ) → ℕ → ℕ → ℕ → ℕ → Run W (Unit {0})
add_blink add row col x y =
    if visible x || visible y then (do r ← add (blink_at row col x y); give tt) else give tt

module _ {W : Type 0} (c : Calls W) (add : Blink → Run W ℤ) (c0 c1 : ℕ) (fd0 fd1 : ℤ) where
  -- The inner loop of add_frames: a line of both files.
  unfoldable pub row_loop : ℕ → ℕ → ℕ → Bool → Bool → Run W (Bool × Bool)
  row_loop zero row col eof0 eof1 u = none
  row_loop (suc fuel) row col eof0 eof1 u =
      (do
        e0 ← next_char c c0 fd0 eof0
        e1 ← next_char c c1 fd1 eof1
        x ← load c0
        y ← load c1
        if x == 10 && y == 10
            then give (e0, e1)
            else do add_blink add row col x y; row_loop fuel row (col + 1) e0 e1)
        u

  unfoldable pub frames_loop : ℕ → ℕ → ℕ → Bool → Bool → Run W (Unit {0})
  unfolding row_loop end_row
  frames_loop cols zero row eof0 eof1 u = none
  frames_loop cols (suc fuel) row eof0 eof1 u =
      (if eof0 && eof1 then give tt else do
        ends ← row_loop cols row 0 eof0 eof1
        end_row c c0 fd0 ends.0
        end_row c c1 fd1 ends.1
        frames_loop cols fuel (row + 1) ends.0 ends.1)
        u

abbrev pub is_negative : ℤ → Bool
is_negative (pos n) = false
is_negative (negsuc n) = true

module _ {W : Type 0} (c : Calls W) (add : Blink → Run W ℤ) (halt : Run W (Unit {0}))
    (c0 c1 : ℕ) where
  -- `cols` and `fuel` bound the characters of a line and the lines.
  unfoldable pub add_frames : ℕ → ℕ → ℕ → ℕ → Run W (Unit {0})
  unfolding frames_loop store
  add_frames cols fuel f0 f1 = do
    fd0 ← c.ece391_open f0
    if is_negative fd0 then halt else give tt
    fd1 ← c.ece391_open f1
    if is_negative fd1 then halt else give tt
    store c0 48
    store c1 48
    frames_loop c add c0 c1 fd0 fd1 cols fuel 0 false false

  -- A loop of main: it waits for the clock and lets blink.S change the screen.
  unfoldable pub wait_loop : ℤ → ℕ → Run W (Unit {0}) → ℕ → Run W (Unit {0})
  wait_loop rtc_fd garbage tasklet zero = give tt
  wait_loop rtc_fd garbage tasklet (suc rounds) = do
    r ← c.ece391_read rtc_fd garbage 4
    tasklet
    wait_loop rtc_fd garbage tasklet rounds

  -- main; `sync` and `remove` are the other calls of mp1_ioctl, and `base` is the address of
  -- vmem_base_addr.
  pub fish :
      (cols fuel blink_array base ret_val garbage f0 f1 rtc : ℕ)
      (tasklet sync remove : Run W (Unit {0}))
      → Run W ℤ
  unfolding add_frames wait_loop fish_memset store32
  fish cols fuel blink_array base ret_val garbage f0 f1 rtc tasklet sync remove u =
      (do
        r ← c.ece391_vidmap base
        address ← (λ v. some (load32 v.memory base, v))
        if failed r || address == 0 then give minus_one else do
          rtc_fd ← c.ece391_open rtc
          add_frames cols fuel f0 f1
          (λ v. some (tt, record v { memory = store32 v.memory ret_val 32 }))
          written ← c.ece391_write rtc_fd ret_val (pos 4)
          wait_loop rtc_fd garbage tasklet 100
          added ← add (record {
            location = 6 * 80 + 60;
            on_char = 73;
            off_char = 77;
            on_length = 7;
            off_length = 6;
          })
          wait_loop rtc_fd garbage tasklet 100
          sync
          wait_loop rtc_fd garbage tasklet 100
          remove
          wait_loop rtc_fd garbage tasklet 100
          closed ← c.ece391_close rtc_fd
          give (pos 0))
        (record u { memory = fish_memset (2000 * blink_size) u.memory blink_array 0 })
