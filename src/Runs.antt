-- ===== src/Runs.antt =====
-- The theorems at concrete inputs: packets, clocks, rooms and buffers.
mod Packets
mod Clocks
mod Rooms
mod Buffers
mod Samples
mod Commands
mod Impaired
mod Rings
mod Streams
mod Sessions
mod Lines
mod Connections
