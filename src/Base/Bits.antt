-- ===== src/Base/Bits.antt =====
-- Words as natural numbers, read one binary digit at a time.
pub mod Digit
pub mod Laws
pub mod Shifts
pub mod Words
