-- ===== src/Process.antt =====
-- The processes of student-distrib/syscalls.c.
pub mod Descriptors
pub mod Search
pub mod Opening
pub mod Calls
pub mod Command
pub mod Parse
pub mod Kernel
pub mod Execute
pub mod Halt
pub mod Stacks
pub mod Moves
pub mod Start
pub mod Effect
pub mod Load
pub mod Closing
pub mod Popping
pub mod Ending
pub mod Sound
pub mod Reach
