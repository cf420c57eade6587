-- ===== src/Tests.antt =====
-- The theorems at concrete programs, registers and rows.
pub mod Execution
pub mod Words
pub mod Bist
pub mod Bus
pub mod Scripts
pub mod Rows
pub mod Checker
pub mod I2c
pub mod Levelling
pub mod Tolerance
pub mod Analysis
pub mod Attacks
pub mod Report
