-- ===== src/Server/Examples.antt =====
-- The simulator at concrete sockets, ports and designs.
mod Threads
mod Requests
mod Serving
mod Starting
pub mod Registers
pub mod Machine
mod Memories
pub mod Bursting
