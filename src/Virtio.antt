-- ===== src/Virtio.antt =====
-- The virtio rings and registers, src/lib/virtio.c and src/include/xhyve/virtio.h.
pub mod Memory
pub mod Getchain
pub mod Requests
pub mod Recorded
pub mod Tables
pub mod Chains
pub mod Mapped
pub mod Accepted
pub mod Used
pub mod Interrupts
pub mod UsedRing
pub mod Device
pub mod Registers
pub mod Accesses
pub mod Layout
pub mod Line
pub mod Session
pub mod Setup
mod Tests
