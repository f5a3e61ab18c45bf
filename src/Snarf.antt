-- ===== src/Snarf.antt =====
-- The web client of `snarf/`: its URLs and its HTTP connections.
pub mod Strings
pub mod Url
pub mod Http
mod Tests
