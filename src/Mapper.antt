-- ===== src/Mapper.antt =====
-- tools/nesrom/src/mapper: bank state, the five supported chips, and the address mapping.
pub mod State
pub mod Slots
pub mod Nrom
pub mod Uxrom
pub mod Cnrom
pub mod Mmc1
pub mod Mmc3
pub mod Chip
pub mod Address
pub mod Writes
pub mod Windows
pub mod Notes
