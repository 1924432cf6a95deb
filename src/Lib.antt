-- ===== src/Lib.antt =====
-- The kernel of student-distrib: a small operating system for one processor with three text
-- terminals, six processes, a read-only file system in memory and preemptive scheduling.
--
-- How the parts interact. An interrupt of the keyboard decodes a scan code into a key or a switch of
-- terminals; a key edits the line in the key buffer of the shown terminal and is echoed on the
-- screen, and enter lets the process that reads the terminal have the line. A switch of terminals
-- saves the screen, the cursor and the key index and maps the video page of user programs to the
-- screen or to a buffer. The timer's interrupt chooses the next active terminal and switches to its
-- process: program page, video page and stack. A process opens files into its table of descriptors
-- and reads them through the file system.
--
-- The files, each with the code that it is about and its state:
--   Memory    student-distrib/lib.c: memset, memset_word, memset_dword, memcpy, memmove. A memory is
--             a function from addresses to bytes; each string instruction and each loop of the
--             inline assembly is a function, the aligned middle part a loop of 32-bit words.
--   CString   lib.c: strlen, strncmp, strcpy, strncpy, strrev, itoa.
--   Print     lib.c: puts and printf, with putc as an argument, since printf_terminal_active and
--             puts_terminal_active are the same code. Print/Format says what a format stands for.
--   Screen    lib.c: the cursor, the video memory and what is written to it, as a record; the port
--             writes of set_cursor_pos are the `cursor` field.
--   FileSystem  filesys.c: read_data, file_read, the directory entries. FileSystem/Image says what
--             a well-formed image and the bytes of a file are.
--   Devices   i8259.c (Pic) and rtc.c (Rtc): the static variables, and the list of port writes.
--   Paging    paging.c: the page directory and the three tables. Paging/Translate is the address
--             translation of the processor, which the theorems are about.
--   Keyboard  keyboard.c: `decode` is keyboard_interrupt_handler from the scan code on, with the call
--             that it ends in as its result; handle_key_press, add_key_buff, clear_buf.
--   Terminal  terminal.c: init_terminal, switch_terminal, save_restore, switch_helper,
--             terminal_read. The buffer of a terminal is part of its record. Terminal/Active is
--             terminal_write, and the output of lib.c to a terminal that is not shown.
--   Scheduler scheduler.c, and get_proc_num of syscalls.c. A PCB is what a switch uses of it.
--   Process   syscalls.c: sys_open, sys_close and the table of descriptors (Process/Descriptors);
--             sys_read, sys_write, getargs and vidmap (Process/Calls); execute, with its parse of
--             the command line (Process/Command, Process/Execute), and halt (Process/Halt), on the
--             state in Process/Kernel. Process/Stacks is the table of processes seen as a stack for
--             each terminal, Process/Load what the file of a program is to execute, and
--             Process/Reach the states that the two lead to.
--   Interrupts  idt.c: init_idt and the table that it fills, and the exception handlers.
--   User      the user programs of syscalls. ece391support.c is in User itself. A program runs on a
--             machine: its memory, and all that is behind the system calls (User/Calls). The calls are
--             an interface (Calls); User/Kernel is that interface with the kernel's own functions
--             behind it, and User/Output what a program's writes and reads do on it. User/Programs
--             has cat, ls, hello, testprint, the shell and counter; User/Grep has grep, User/Pingpong
--             pingpong, and User/Errors the tests of ece391syserr.c.
--   Emulation fish/ece391emulate.c (and its copy in syscalls): the system calls on a host.
--   Fish      fish/fish.c: the animation, with blink.S as an argument.
--   Tests     runs at concrete inputs.
--   Common    lists, signed values, bits, and the tests on numbers.
--
-- Numbers are natural numbers; where the C type wraps, the model takes the remainder (u32, % 256),
-- and a negative int32_t is `negsuc`. A pointer sum does not wrap.
--
-- Fuel. set_screen_pos calls itself at most twice more, with the cursor on the screen, so that 3 is
-- enough for it, and for putc, backspace and enter, which call it. strlen, strcpy, strrev, puts and
-- the name of read_dentry_by_name take the number of bytes that are looked at for a NUL; more than
-- the string is long is enough. The parse of a command looks at up to 256 characters, the values of
-- its index. itoa is given `value` rounds, enough from the radix 2 on. `none` stands for fuel that ran out, for a store outside
-- the key buffer, for a value that the code never sets, for a radix below 2, and for a process that waits for a flag.
--
-- printf is given a bound of the characters of the format and one of the characters of a string,
-- the terminating NUL counted in both; set_screen_pos_term_exec nests like set_screen_pos.
--
-- The loops of the user programs take fuel for their rounds: of cat and grep for each piece that is
-- read, of ls for each entry, and of the shell for each line. `chars` of Calls bounds the characters that
-- a string function looks at; `none` stands for a call that does not come back as well. The loop of
-- pingpong does not end, so that its model is given the number of its rounds. The inner loop of grep
-- has 1025 rounds, one for each byte of its array.
--
-- Outside the model: the boot code, the kernel's test program, and ece391sigtest.c, since the kernel
-- has no signals. The switch into a user program and the return from it are results: `launched` of
-- switch_terminal, `Outcome` of execute and halt. get_proc_num leaves its message to the caller. The
-- instructions cli and sti have no counterpart, since each operation is one step. What a device
-- returns on a port is an argument, and so is what the compiler and the linker fix: where a literal,
-- a local array or a table stands.
pub mod Common
pub mod Memory
pub mod CString
pub mod Print
pub mod Screen
pub mod FileSystem
pub mod Devices
pub mod Paging
pub mod Keyboard
pub mod Terminal
pub mod Scheduler
pub mod Process
pub mod Interrupts
pub mod User
pub mod Emulation
pub mod Fish
pub mod Tests
