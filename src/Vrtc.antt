-- ===== src/Vrtc.antt =====
-- The real-time clock, src/lib/vmm/io/vrtc.c.
pub mod Clock
pub mod Calendar
pub mod Dates
pub mod Fields
pub mod Formats
pub mod Registers
pub mod Ports
pub mod Rounds
pub mod Alarm
pub mod Setting
mod Tests
