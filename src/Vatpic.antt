-- ===== src/Vatpic.antt =====
-- The pair of 8259A interrupt controllers, src/lib/vmm/io/vatpic.c.
pub mod PinLoop
pub mod State
pub mod Notify
pub mod Commands
pub mod Ports
pub mod Priority
pub mod Settled
pub mod Trigger
pub mod Pair
mod Tests
pub mod Calls
pub mod Programming
pub mod Lines
pub mod Accept
pub mod Valid
