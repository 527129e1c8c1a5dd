-- ===== src/Compress.antt =====
-- compress/mod.rs: the result of a decoder.
pub mod Decoded
pub mod Rle
pub mod Lz
pub mod Pb53
pub mod Dispatch
