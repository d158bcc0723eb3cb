-- ===== src/Tests.antt =====
-- Concrete inputs, and the theorems at them.
mod Stations
mod Base
mod Devices
mod Mac
mod Buses
mod Packets
mod Exchanges
mod Formats
