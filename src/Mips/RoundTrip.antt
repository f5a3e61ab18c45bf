-- ===== src/Mips/RoundTrip.antt =====
-- An encoded instruction decodes to the instruction that it was made from.
pub mod Steps
pub mod Recover
pub mod Fields
pub mod Extra
pub mod Codes
pub mod Fits
pub mod Special
pub mod Immediate
pub mod Shapes
pub mod Jumps
pub mod Table
