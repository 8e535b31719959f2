-- ===== src/Tests.antt =====
-- Concrete inputs, and the theorems at them.
mod Streams
mod Readers
mod Connections
mod Buffers
mod Descriptions
mod Values
mod Decimals
mod Rows
