-- ===== src/Pci.antt =====
-- The legacy interrupts of PCI devices: their lines in src/lib/pci_emul.c and the router of the lines
-- in src/lib/pci_irq.c.
pub mod Router
pub mod Lines
pub mod Counts
pub mod Changes
pub mod Wired
pub mod Runs
pub mod Levels
pub mod Boot
mod Tests
