-- ===== src/Uart.antt =====
-- The serial port, src/lib/uart_emul.c.
pub mod State
pub mod Fifo
pub mod Registers
pub mod Invariant
pub mod Session
pub mod Receive
pub mod Interrupts
pub mod Modem
pub mod Legacy
mod Tests
