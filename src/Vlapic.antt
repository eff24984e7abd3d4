-- ===== src/Vlapic.antt =====
-- The local APIC, src/lib/vmm/io/vlapic.c.
pub mod Vectors
pub mod Highest
pub mod State
pub mod Sources
pub mod Registers
pub mod Divider
pub mod Quiet
pub mod Errors
pub mod Stack
pub mod Nested
pub mod Service
pub mod Reset
pub mod Calls
pub mod Targets
pub mod Addressed
pub mod Logical
pub mod Delivered
mod Tests
