-- ===== src/Client/Examples.antt =====
-- The driver at concrete devices and sockets.
mod Device
mod Polled
mod Socketed
mod Cloud
mod Testing
