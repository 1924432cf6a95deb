-- ===== src/Devices/Ports.antt =====
-- Port writes, oldest first: each is the value and the port of one `outb`.
use ece391_os.Common.{ℕ, List}

abbrev pub Writes : Type 0
Writes = List (ℕ × ℕ)
