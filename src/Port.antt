-- ===== src/Port.antt =====
-- port.c: the port's registers, settings and clock.
pub mod Access
pub mod Settings
pub mod Registers
pub mod Life
pub mod Clock
