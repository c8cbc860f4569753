-- ===== src/Tests.antt =====
-- A sample port with a sample environment, and the theorems at concrete inputs.
mod Sample
mod Rings
mod Registers
mod Reading
mod System
mod Driver
mod Clock
