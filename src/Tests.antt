-- ===== src/Tests.antt =====
-- Runs of the modelled functions, and each theorem with hypotheses at an input that meets them.
mod Memory
mod Strings
mod Screen
mod Paging
mod Print
mod Process
mod Load
mod Keyboard
mod FileSystem
mod Directory
mod Terminal
mod Scheduler
mod Devices
mod Command
mod User
mod Emulation
mod Fish
