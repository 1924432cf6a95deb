-- ===== src/User/Errors/Refusals.antt =====
-- What the kernel refuses a program that has just been started: sys_read, sys_write, sys_close, vidmap
-- and the table of system calls.
use ece391_os.Common.{
  ℕ, ◌<◌, ◌≤◌, ◌≡◌, refl, ap, arith, Bool-cases, inl, inr, ltb, some, minus_one, zero, suc, ℤ, pos,
}
use ece391_os.Memory.{Mem}
use ece391_os.Devices.Rtc.{Rtc}
use ece391_os.Paging.{Paging}
use ece391_os.Terminal.{Terminals}
use ece391_os.Process.Descriptors.{desc, new_fds, sys_close}
use ece391_os.Process.Calls.{sys_read, sys_write, table_read, table_write, system_call, vidmap}
use ece391_os.User.Calls.{Machine, Run}
use ece391_os.User.Kernel.{Served, Services, kernel_calls, kernel_close, closed}
use ece391_os.User.Errors.{neg_fd, big_fd}

-- A program that has just been started, on some terminals.
abbrev pub just_started : Mem → Rtc → Paging → Terminals → Machine Served
just_started m rtc p s = record {
  memory = m;
  world = record { fds = new_fds; rtc = rtc; paging = p; terminals = s };
}

free_from : (i : ℕ) → 2 ≤ i → i < 8 → (desc new_fds i).flags ≡ 0
free_from zero l b = absurd (omega arith)
free_from (suc zero) l b = absurd (omega arith)
free_from (suc (suc zero)) l b = refl
free_from (suc (suc (suc zero))) l b = refl
free_from (suc (suc (suc (suc zero)))) l b = refl
free_from (suc (suc (suc (suc (suc zero))))) l b = refl
free_from (suc (suc (suc (suc (suc (suc zero)))))) l b = refl
free_from (suc (suc (suc (suc (suc (suc (suc zero))))))) l b = refl
free_from (suc (suc (suc (suc (suc (suc (suc (suc i)))))))) l b = absurd (omega arith)

module _ (k : Services) (m : Mem) (rtc : Rtc) (p : Paging) (s : Terminals) where
  -- Calls on the machine of a program that has just been started.
  abbrev pub machine : Machine Served
  machine = just_started m rtc p s

  pub read_neg :
      (buf : ℕ) → (kernel_calls k).ece391_read neg_fd buf 31 machine ≡ some (minus_one, machine)
  unfolding kernel_calls sys_read
  read_neg buf = refl

  pub write_neg :
      (buf : ℕ)
      → (kernel_calls k).ece391_write neg_fd buf (pos 31) machine ≡ some (minus_one, machine)
  unfolding kernel_calls sys_write
  write_neg buf = refl

  pub close_neg : (kernel_calls k).ece391_close neg_fd machine ≡ some (minus_one, machine)
  unfolding kernel_calls sys_close
  close_neg = refl

  pub read_big :
      (buf : ℕ) → (kernel_calls k).ece391_read big_fd buf 31 machine ≡ some (minus_one, machine)
  unfolding kernel_calls sys_read
  read_big buf = refl

  pub write_big :
      (buf : ℕ)
      → (kernel_calls k).ece391_write big_fd buf (pos 31) machine ≡ some (minus_one, machine)
  unfolding kernel_calls sys_write
  write_big buf = refl

  pub close_big : (kernel_calls k).ece391_close big_fd machine ≡ some (minus_one, machine)
  unfolding kernel_calls sys_close
  close_big = refl

  -- stdout cannot be read, and stdin cannot be written.
  pub read_stdout :
      (buf : ℕ) → (kernel_calls k).ece391_read (pos 1) buf 31 machine ≡ some (minus_one, machine)
  unfolding kernel_calls sys_read table_read
  read_stdout buf = ground arith

  pub write_stdin :
      (buf : ℕ)
      → (kernel_calls k).ece391_write (pos 0) buf (pos 31) machine ≡ some (minus_one, machine)
  unfolding kernel_calls sys_write table_write
  write_stdin buf = ground arith

  -- The descriptors from 2 on are free, and no descriptor can be closed.
  pub read_free :
      (buf i : ℕ)
      → 2 ≤ i
      → i < 8
      → (kernel_calls k).ece391_read (pos i) buf 31 machine ≡ some (minus_one, machine)
  unfolding kernel_calls sys_read
  read_free buf i l b = ground (arith, free_from i l b)

  pub write_free :
      (buf i : ℕ)
      → 2 ≤ i
      → i < 8
      → (kernel_calls k).ece391_write (pos i) buf (pos 31) machine ≡ some (minus_one, machine)
  unfolding kernel_calls sys_write
  write_free buf i l b = ground (arith, free_from i l b)

  refused_close :
      (i : ℕ) → i < 8 → sys_close (pos i) k.a_old new_fds rtc ≡ some (minus_one, new_fds, rtc)
  unfolding sys_close
  refused_close i b = elim (Bool-cases (ltb i 2)) [
    | inl low ↦ rw low refl
    | inr high ↦ ground (arith, high, free_from i)
  ]

  pub close_any :
      (i : ℕ) → i < 8 → (kernel_calls k).ece391_close (pos i) machine ≡ some (minus_one, machine)
  unfolding kernel_calls kernel_close
  close_any i b = ap (closed k machine) (refused_close i b)

  pub call_big :
      (call : ℕ → Run Served ℤ) → system_call call big_fd machine ≡ some (minus_one, machine)
  unfolding system_call
  call_big call = refl

  pub call_neg :
      (call : ℕ → Run Served ℤ) → system_call call neg_fd machine ≡ some (minus_one, machine)
  unfolding system_call
  call_neg call = refl

  pub call_zero :
      (call : ℕ → Run Served ℤ) → system_call call (pos 0) machine ≡ some (minus_one, machine)
  unfolding system_call
  call_zero call = refl

  pub vidmap_null : (kernel_calls k).ece391_vidmap 0 machine ≡ some (minus_one, machine)
  unfolding kernel_calls vidmap
  vidmap_null = refl

  pub vidmap_kernel : (kernel_calls k).ece391_vidmap 0x400000 machine ≡ some (minus_one, machine)
  unfolding kernel_calls vidmap
  vidmap_kernel = refl
