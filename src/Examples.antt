-- ===== src/Examples.antt =====
-- The theorems of the other modules on concrete inputs, and the operating system that those with a
-- file need.
pub mod Disk
pub mod Core
pub mod Entries
pub mod Kv
pub mod Table
pub mod Tables
pub mod Durable
pub mod Session
pub mod Lifecycle
pub mod Device
pub mod Drive
