-- ===== src/Audible.antt =====
-- The audio recoder of `audible/`: its options, the header and annotation of a Sun audio stream,
-- its frames, the pseudorandom numbers, the encryption of frames and the choice of frames for -u.
pub mod Options
pub mod Stream
pub mod Crypt
pub mod Speed
mod Tests
