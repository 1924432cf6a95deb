-- ===== src/Terminal.antt =====
-- student-distrib/terminal.c: the three terminals, saving and restoring them, and switching the
-- screen from one to another; the reads of a terminal.
pub mod Switch
pub mod Read
pub mod Active
pub mod Write
use ece391_os.Common.{
  ℕ, zero, suc, ◌+◌, ◌-◌, ◌*◌, ltb, ◌==◌, ◌&&◌, not, if◌then◌else◌, Option, none, some, List, [],
  ◌∷◌, get_or, ℤ, pos, negsuc, minus_one, Bool, true, false,
}
use ece391_os.Memory.{Mem, upd}
use ece391_os.Screen.{Screen, set_screen_pos}
use ece391_os.Keyboard.{key_buffer_size, clear_from}
use ece391_os.Paging.{Paging, table_to_page_mapping, table_remap, vidmem_remap}

abbrev pub max_term : ℕ
max_term = 3

-- LOCATION, the bytes of a screen.
abbrev pub location : ℕ
location = 4000

abbrev pub addr_100mb : ℕ
addr_100mb = 0x6400000

abbrev pub addr_136mb : ℕ
addr_136mb = 0x8800000

abbrev pub video_addr : ℕ
video_addr = 0xB8000

-- term_t. `video_mem` is the address of the terminal's screen buffer and `buffer` what it holds.
pub record Term : Type 0 where
  pub id : ℕ
  pub pos_x : ℕ
  pub pos_y : ℕ
  pub active : ℕ
  pub apn : ℤ
  pub key_buffer : List ℕ
  pub key_buffer_idx : ℕ
  pub eflag : ℕ
  pub video_mem : ℕ
  pub buffer : Mem

-- The globals: the terminals, the shown screen with `cur_term`, the global `key_buffer_idx`, the
-- terminal whose array `key_buffer` points to, the page tables and `cur_active_terminal`.
pub record Terminals : Type 0 where
  pub term : ℕ → Term
  pub screen : Screen
  pub key_buffer_idx : ℕ
  pub key_buffer_of : ℕ
  pub paging : Paging
  pub cur_active : ℕ

-- The array `terminal` with one entry replaced.
unfoldable pub put : ℕ → Term → (ℕ → Term) → ℕ → Term
put i t f j = if i == j then t else f j

-- memcpy of a whole screen from one buffer to another.
unfoldable pub copy_screen : Mem → Mem → Mem
copy_screen from to b = if ltb b location then from b else to b

-- The loop that blanks a terminal's screen, with the rounds that are left.
blank_from : ℕ → ℕ → Mem → ℕ → Mem
unfolding upd
blank_from zero attrib v j = v
blank_from (suc r) attrib v j =
    blank_from r attrib (upd (upd v (2 * j) b' ') (2 * j + 1) attrib) (j + 1)

-- One round of the loop of init_terminal.
init_one : ℕ → Terminals → Terminals
init_one i s =
    let addr = addr_100mb + (i + 1) * 0x1000 in
    record s {
      paging = table_to_page_mapping addr_100mb addr (i + 1) s.paging;
      term =
          put i
            (record {
              id = i;
              pos_x = 0;
              pos_y = 0;
              active = 0;
              apn = minus_one;
              key_buffer = clear_from key_buffer_size (s.term i).key_buffer 0;
              key_buffer_idx = 0;
              eflag = 0;
              video_mem = addr;
              buffer =
                  blank_from 2000 (if i == 0 then 0x07 else if i == 1 then 0x0A else 0x0C)
                    (s.term i).buffer 0;
            })
            s.term;
    }

unfoldable pub save : ℕ → Terminals → Terminals
unfolding put copy_screen
save n s = record s {
  term =
      put n
        (record (s.term n) {
          pos_x = s.screen.screen_x;
          pos_y = s.screen.screen_y;
          key_buffer_idx = s.key_buffer_idx;
          buffer = copy_screen s.screen.video (s.term n).buffer;
        })
        s.term;
}

unfoldable pub restore : ℕ → ℕ → Terminals → Option Terminals
unfolding copy_screen
restore fuel n s = elim (set_screen_pos fuel (s.term n).pos_x (s.term n).pos_y s.screen) [
  | none ↦ none
  | some scr ↦ some (record s {
    key_buffer_idx = (s.term n).key_buffer_idx;
    screen = record scr { video = copy_screen (s.term n).buffer scr.video };
  })
]

-- save_restore(term_num, s_or_r).
pub save_restore : ℕ → ℕ → ℕ → Terminals → Option Terminals
save_restore fuel term_num s_or_r s =
    if s_or_r == 0 then some (save term_num s) else restore fuel term_num s

-- switch_helper: save_restore never returns -1.
unfoldable pub switch_helper : ℕ → ℕ → ℕ → Terminals → Option Terminals
switch_helper fuel old new s = restore fuel new (save old s)

-- init_terminal up to the launch of the first shell.
pub init_terminal : ℕ → Terminals → Option Terminals
unfolding init_one save_restore
init_terminal fuel s =
    let s3 = init_one 2 (init_one 1 (init_one 0 s)) in
    elim (save_restore fuel 0 1 (record s3 { key_buffer_of = 0 })) [
      | none ↦ none
      | some s4 ↦ some (record s4 { screen = record (s4.screen) { cur_term = 0 } })
    ]

-- How switch_terminal ends: with its result, or by launching a shell on the new terminal.
pub data Switched : Type 0 where
  returned : ℤ → Switched
  launched : Switched

-- Video memory for user programs: the shown terminal's process draws on the screen, any other in
-- the buffer of its terminal. The two calls at the end of a switch, vidmap and vidmem_remap.
unfoldable pub remap_video : Terminals → Terminals
remap_video s =
    let mapped = table_remap addr_136mb video_addr s.paging in
    let t = s.term s.cur_active in
    record s {
      paging =
          if t.id == s.screen.cur_term then mapped else vidmem_remap addr_136mb t.video_mem mapped;
    }

abbrev pub show : ℕ → Terminals → Terminals
show n s = record s { key_buffer_of = n; screen = record (s.screen) { cur_term = n } }

pub switch_terminal : ℕ → ℕ → Terminals → Option (Switched × Terminals)
switch_terminal fuel n s =
    let old = s.screen.cur_term in
    if ltb (max_term - 1) n
    then some (returned minus_one, s)
    else if n == old
    then some (returned (pos 0), s)
    else if (s.term n).active == 1
    then (elim (switch_helper fuel old n s) [
      | none ↦ none
      | some s1 ↦ some (returned (pos 0), remap_video (show n s1))
    ])
    else (elim (restore fuel n (show n (save old s))) [
      | none ↦ none
      | some s1 ↦ some (launched, s1)
    ])
