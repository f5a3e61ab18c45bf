-- ===== src/Spooler.antt =====
-- The print spooler of `Printer Spooler/`: its printers, its jobs, its commands, and the graph of
-- file types and conversions.
pub mod Printers
pub mod Jobs
pub mod Types
pub mod Search
pub mod Text
pub mod Commands
mod Tests
