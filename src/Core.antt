-- ===== src/Core.antt =====
-- The parts under include/core: byte buffers, error codes, integer packing and CRC-32.
pub mod Types
pub mod DbError
pub mod BitUtils
pub mod Crc
pub mod Reader
pub mod Platform
pub mod Unix
pub mod Windows
