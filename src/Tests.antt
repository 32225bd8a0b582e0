-- ===== src/Tests.antt =====
-- Runs of the models at concrete inputs.
mod Ring
mod Driver
mod Sim
mod Tool
mod Device
mod Phy
mod Ownership
mod Metric
mod Xdp
mod Handshake
mod Devices
mod Demo
mod Link
mod Fuzz
mod Bench
