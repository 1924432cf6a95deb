-- ===== src/Devices.antt =====
-- The devices of student-distrib: the interrupt controllers (i8259.c) and the real-time clock
-- (rtc.c).
pub mod Ports
pub mod Pic
pub mod Rtc
