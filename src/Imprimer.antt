-- ===== src/Imprimer.antt =====
-- The terminal multiplexer of `imprimer/`: virtual screens and the table of sessions.
pub mod Vscreen
pub mod Session
mod Tests
