-- ===== src/Client.antt =====
-- regression/src/client: the driver that a host program links with.
mod Examples
pub mod Fpga
pub mod Ipc
pub mod Rtl
pub mod Aws
pub mod Message
pub mod Interface
pub mod Test
