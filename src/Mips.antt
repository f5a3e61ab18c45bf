-- ===== src/Mips.antt =====
-- The MIPS assembler and disassembler of `MIPS Convertor/`.
pub mod Isa
pub mod Encode
pub mod Decode
pub mod Endian
pub mod Text
pub mod Args
pub mod Fields
pub mod RoundTrip
pub mod Main
pub mod Rejects
mod Tests
