-- ===== src/Core.antt =====
-- The driver's own core, core/ and the headers of include/ that it shares: each child is one of its
-- parts.
pub mod WorkQueue
pub mod Pages
pub mod Command
pub mod Device
pub mod Bits
pub mod MemoryKey
pub mod Entries
