-- ===== src/Tests/User.antt =====
-- The user programs on the kernel's own calls.
mod Errors
mod Output
mod Shell
