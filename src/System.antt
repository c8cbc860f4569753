-- ===== src/System.antt =====
-- The port as the system of all that works on it: the calls of its users, the interrupt handler,
-- the workers and the timer (main.c, isr.c), with the two rings that they share.
mod Same
mod Frames
mod Receive
mod Receiving
mod Reading
mod Streaming
mod Transmit
mod Feeding
mod Control
mod Interrupt
pub mod Sound
pub mod Operations
pub mod Reach
pub mod Wakes
pub mod Start
pub mod NewPort
pub mod Calls
