-- ===== src/Interrupts/Exceptions.antt =====
-- The exception handlers of student-distrib/idt.c: a blue screen with a message, and `stop`.
use ece391_os.Common.{
  ℕ, ◌+◌, ◌≤◌, ◌<◌, ◌≡◌, ◌⊎◌, refl, arith, Option, none, Bool, true, false, Bool-cases, inl, inr,
  ltb, ◌&&◌, ◌==◌, if◌then◌else◌, subst, some, List, [], ◌∷◌, length, ◌>>=◌,
}
use ece391_os.Memory.{Mem}
use ece391_os.Print.{printf}
use ece391_os.Print.Text.{IsText}
use ece391_os.Print.Format.{IsPlain, render-plain}
use ece391_os.Print.Run.{printf-render}
use ece391_os.Screen.{Screen, blue_screen, putc}
use ece391_os.Screen.Cursor.{OnScreen}
use ece391_os.Screen.Output.{
  printed_all, printed_all-OnScreen, blue_screen-OnScreen, emit-printed_all,
}
use ece391_os.Interrupts.{
  Handler, divide_error, debug, nmi, breakpoint, overflow, bounds, invalid_op, device_not_available,
  double_fault, segment_overrun, invalid_tss, segment_not_present, stack_segment,
  general_protection, page_fault, generic_error, fp, alignment_check, machine_check, rtc_handler,
  keyboard_handler, pit_handler, system_call_handler,
}

-- The string literal that the handler prints; `none` for a handler of a device or of system calls.
abbrev pub message : Handler → Option (List ℕ)
message divide_error =
    some (
      b'D' ∷ b'i' ∷ b'v' ∷ b'i' ∷ b's' ∷ b'i' ∷ b'o' ∷ b'n' ∷ b' ' ∷ b'b' ∷ b'y' ∷ b' ' ∷ b'0' ∷ [])
message debug = some (
    b'D' ∷ b'e' ∷ b'b' ∷ b'u' ∷ b'g' ∷ b' ' ∷ b'E' ∷ b'x' ∷ b'c' ∷ b'e' ∷ b'p' ∷ b't' ∷ b'i' ∷ b'o'
    ∷ b'n' ∷ [])
message nmi = some (
    b'N' ∷ b'o' ∷ b'n' ∷ b'-' ∷ b'M' ∷ b'a' ∷ b's' ∷ b'k' ∷ b'a' ∷ b'b' ∷ b'l' ∷ b'e' ∷ b' ' ∷ b'I'
    ∷ b'n' ∷ b't' ∷ b'e' ∷ b'r' ∷ b'r' ∷ b'u' ∷ b'p' ∷ b't' ∷ [])
message breakpoint = some (
    b'B' ∷ b'r' ∷ b'e' ∷ b'a' ∷ b'k' ∷ b'p' ∷ b'o' ∷ b'i' ∷ b'n' ∷ b't' ∷ b' ' ∷ b'(' ∷ b'I' ∷ b'N'
    ∷ b'T' ∷ b'3' ∷ b')' ∷ [])
message overflow = some (
    b'O' ∷ b'v' ∷ b'e' ∷ b'r' ∷ b'f' ∷ b'l' ∷ b'o' ∷ b'w' ∷ b' ' ∷ b'w' ∷ b'i' ∷ b't' ∷ b'h' ∷ b' '
    ∷ b'E' ∷ b'F' ∷ b'L' ∷ b'A' ∷ b'G' ∷ b'S' ∷ b'[' ∷ b'O' ∷ b'F' ∷ b']' ∷ b' ' ∷ b'S' ∷ b'e'
    ∷ b't' ∷ [])
message bounds = some (
    b'D' ∷ b'e' ∷ b'b' ∷ b'u' ∷ b'g' ∷ b' ' ∷ b'E' ∷ b'x' ∷ b'c' ∷ b'e' ∷ b'p' ∷ b't' ∷ b'i' ∷ b'o'
    ∷ b'n' ∷ [])
message invalid_op = some (
    b'I' ∷ b'n' ∷ b'v' ∷ b'a' ∷ b'l' ∷ b'i' ∷ b'd' ∷ b' ' ∷ b'O' ∷ b'p' ∷ b'c' ∷ b'o' ∷ b'd' ∷ b'e'
    ∷ [])
message device_not_available = some (
    b'F' ∷ b'l' ∷ b'o' ∷ b'a' ∷ b't' ∷ b'i' ∷ b'n' ∷ b'g' ∷ b' ' ∷ b'P' ∷ b'o' ∷ b'i' ∷ b'n' ∷ b't'
    ∷ b' ' ∷ b'U' ∷ b'n' ∷ b'i' ∷ b't' ∷ b' ' ∷ b'M' ∷ b'i' ∷ b's' ∷ b's' ∷ b'i' ∷ b'n' ∷ b'g' ∷ [])
message double_fault =
    some (b'D' ∷ b'o' ∷ b'u' ∷ b'b' ∷ b'l' ∷ b'e' ∷ b' ' ∷ b'F' ∷ b'a' ∷ b'u' ∷ b'l' ∷ b't' ∷ [])
message segment_overrun = some (
    b'C' ∷ b'o' ∷ b'p' ∷ b'r' ∷ b'o' ∷ b'c' ∷ b'e' ∷ b's' ∷ b's' ∷ b'o' ∷ b'r' ∷ b' ' ∷ b'S' ∷ b'e'
    ∷ b'g' ∷ b'm' ∷ b'e' ∷ b'n' ∷ b't' ∷ b' ' ∷ b'O' ∷ b'v' ∷ b'e' ∷ b'r' ∷ b'r' ∷ b'u' ∷ b'n' ∷ [])
message invalid_tss =
    some (b'I' ∷ b'n' ∷ b'v' ∷ b'a' ∷ b'l' ∷ b'i' ∷ b'd' ∷ b' ' ∷ b'T' ∷ b'S' ∷ b'S' ∷ [])
message segment_not_present = some (
    b'S' ∷ b'e' ∷ b'g' ∷ b'm' ∷ b'e' ∷ b'n' ∷ b't' ∷ b' ' ∷ b'N' ∷ b'o' ∷ b't' ∷ b' ' ∷ b'P' ∷ b'r'
    ∷ b'e' ∷ b's' ∷ b'e' ∷ b'n' ∷ b't' ∷ [])
message stack_segment = some (
    b'S' ∷ b't' ∷ b'a' ∷ b'c' ∷ b'k' ∷ b' ' ∷ b'E' ∷ b'x' ∷ b'c' ∷ b'e' ∷ b'p' ∷ b't' ∷ b'i' ∷ b'o'
    ∷ b'n' ∷ [])
message general_protection = some (
    b'G' ∷ b'e' ∷ b'n' ∷ b'e' ∷ b'r' ∷ b'a' ∷ b'l' ∷ b' ' ∷ b'P' ∷ b'r' ∷ b'o' ∷ b't' ∷ b'e' ∷ b'c'
    ∷ b't' ∷ b'i' ∷ b'o' ∷ b'n' ∷ b' ' ∷ b'E' ∷ b'x' ∷ b'c' ∷ b'e' ∷ b'p' ∷ b't' ∷ b'i' ∷ b'o'
    ∷ b'n' ∷ [])
message page_fault = some (b'P' ∷ b'a' ∷ b'g' ∷ b'e' ∷ b' ' ∷ b'F' ∷ b'a' ∷ b'u' ∷ b'l' ∷ b't' ∷ [])
message generic_error = some (
    b'U' ∷ b'n' ∷ b'd' ∷ b'e' ∷ b'f' ∷ b'i' ∷ b'n' ∷ b'e' ∷ b'd' ∷ b' ' ∷ b'E' ∷ b'x' ∷ b'c' ∷ b'e'
    ∷ b'p' ∷ b't' ∷ b'i' ∷ b'o' ∷ b'n' ∷ [])
message fp = some (
    b'F' ∷ b'l' ∷ b'o' ∷ b'a' ∷ b't' ∷ b'i' ∷ b'n' ∷ b'g' ∷ b' ' ∷ b'P' ∷ b'o' ∷ b'i' ∷ b'n' ∷ b't'
    ∷ b' ' ∷ b'E' ∷ b'r' ∷ b'r' ∷ b'o' ∷ b'r' ∷ [])
message alignment_check = some (
    b'A' ∷ b'l' ∷ b'i' ∷ b'g' ∷ b'n' ∷ b'm' ∷ b'e' ∷ b'n' ∷ b't' ∷ b' ' ∷ b'C' ∷ b'h' ∷ b'e' ∷ b'c'
    ∷ b'k' ∷ [])
message machine_check = some (
    b'M' ∷ b'a' ∷ b'c' ∷ b'h' ∷ b'i' ∷ b'n' ∷ b'e' ∷ b' ' ∷ b'C' ∷ b'h' ∷ b'e' ∷ b'c' ∷ b'k' ∷ b' '
    ∷ b'E' ∷ b'x' ∷ b'c' ∷ b'e' ∷ b'p' ∷ b't' ∷ b'i' ∷ b'o' ∷ b'n' ∷ [])
message rtc_handler = none
message keyboard_handler = none
message pit_handler = none
message system_call_handler = none

-- What is left when a handler spins: the screen, the memory, and the interrupt flag.
pub record Stopped : Type 0 where
  pub screen : Screen
  pub memory : Mem
  pub interrupt_flag : ℕ

-- stop(): cli, and then a loop that does nothing and does not end.
abbrev pub stop : Mem → Screen → Stopped
stop m s = record { screen = s; memory = m; interrupt_flag = 0 }

-- An exception handler whose literal is at `literal`: blue_screen, printf and stop.
unfoldable pub exception : ℕ → ℕ → ℕ → ℕ → ℕ → Mem → Screen → Option Stopped
unfolding printf putc
exception fuel size chars conv_buf literal m s = do
  out ← printf (putc fuel) size chars conv_buf literal [] m (blue_screen s)
  some (stop out.1 out.2)

all_plain : List ℕ → Bool
all_plain [] = true
all_plain (c ∷ cs) = if c == b'%' then false else all_plain cs

all_plain-IsPlain : (cs : List ℕ) → all_plain cs ≡ true → IsPlain cs
unfolding all_plain
all_plain-IsPlain [] e = tt
all_plain-IsPlain (c ∷ cs) e = elim (Bool-cases (c == b'%')) [
  | inl y ↦ let e' : false ≡ true = rw y at e in absurd (cc)
  | inr n ↦ let e' : all_plain cs ≡ true = rw n at e in (ground (arith, n), all_plain-IsPlain cs e')
]

-- No message is a specifier, or of 29 characters.
fits : Option (List ℕ) → Bool
unfolding all_plain
fits none = true
fits (some cs) = all_plain cs && ltb (length cs) 29

message-fits : (h : Handler) → fits (message h) ≡ true
unfolding fits all_plain
message-fits divide_error = refl
message-fits debug = refl
message-fits nmi = refl
message-fits breakpoint = refl
message-fits overflow = refl
message-fits bounds = refl
message-fits invalid_op = refl
message-fits device_not_available = refl
message-fits double_fault = refl
message-fits segment_overrun = refl
message-fits invalid_tss = refl
message-fits segment_not_present = refl
message-fits stack_segment = refl
message-fits general_protection = refl
message-fits page_fault = refl
message-fits generic_error = refl
message-fits fp = refl
message-fits alignment_check = refl
message-fits machine_check = refl
message-fits rtc_handler = refl
message-fits keyboard_handler = refl
message-fits pit_handler = refl
message-fits system_call_handler = refl

message-IsPlain : (h : Handler) (cs : List ℕ) → message h ≡ some cs → IsPlain cs × (length cs < 29)
unfolding fits
message-IsPlain h cs e =
    let f : (all_plain cs && ltb (length cs) 29) ≡ true =
      subst (λ x. fits x ≡ true) e (message-fits h) in
    elim (Bool-cases (all_plain cs)) [
      | inl y ↦ (all_plain-IsPlain cs y, ground (arith, f))
      | inr n ↦ absurd (ground (arith, f))
    ]

-- With its message in memory, apart from printf's buffer, and the cursor on the screen, an exception
-- handler comes to `stop` with interrupts off; the screen is then that of blue_screen with the
-- handler's own message at the cursor, whole.
pub exception-Stopped :
    (fuel size chars conv literal : ℕ) (m : Mem) (h : Handler) (cs : List ℕ) (s : Screen)
    → message h ≡ some cs
    → IsText m literal cs
    → (literal + length cs < conv) ⊎ (conv + 64 ≤ literal)
    → OnScreen s
    → 3 ≤ fuel
    → 34 ≤ chars
    → 29 ≤ size
    → (r : Stopped) × (exception fuel size chars conv literal m s ≡ some r)
      × (r.interrupt_flag ≡ 0)
      × (r.screen ≡ printed_all cs (blue_screen s))
      × OnScreen r.screen
unfolding exception
exception-Stopped fuel size chars conv literal m h cs s e t a o l k z =
    let (plain, short) = message-IsPlain h cs e in
    let on = blue_screen-OnScreen s o in
    let (m', g, runs) =
      printf-render (putc fuel) size chars conv m literal cs [] cs k a t (omega arith) tt
        (render-plain chars conv m cs [] plain) in
    (
      stop m' (printed_all cs (blue_screen s)),
      rw (runs (blue_screen s), emit-printed_all fuel cs (blue_screen s) on l) refl,
      refl,
      refl,
      printed_all-OnScreen cs (blue_screen s) on,
    )
