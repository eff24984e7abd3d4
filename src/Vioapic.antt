-- ===== src/Vioapic.antt =====
-- The I/O APIC, src/lib/vmm/io/vioapic.c.
pub mod State
pub mod Registers
pub mod Eoi
pub mod Entries
pub mod Served
pub mod Writes
mod Tests
pub mod Delivery
pub mod EoiTable
pub mod Table
pub mod Calls
