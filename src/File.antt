-- ===== src/File.antt =====
-- main.c: the file operations of a port.
pub mod Sleep
pub mod Read
pub mod Write
pub mod Poll
pub mod Ioctl
pub mod Semaphores
pub mod ReadSemaphore
pub mod Progress
