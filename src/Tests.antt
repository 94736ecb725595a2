-- ===== src/Tests.antt =====
-- The theorems of the development at concrete inputs, and runs of the definitions they stand on.
pub mod Mirror
pub mod Datagrams
pub mod Pieces
pub mod Stream
pub mod Packets
pub mod Posts
pub mod Entries
pub mod Kernel
pub mod Encoders
pub mod Link
pub mod Signals
pub mod Lines
