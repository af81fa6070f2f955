-- ===== src/Server.antt =====
-- regression/src/server: the simulator, which runs the Verilated design and serves the client.
pub mod Examples
pub mod Ipc
pub mod Dut
pub mod Ports
pub mod Routine
pub mod Start
