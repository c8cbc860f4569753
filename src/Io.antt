-- ===== src/Io.antt =====
-- io.c: the frames in the host's memory, the FIFO and the DMA engine.
pub mod Dma
pub mod Frames
pub mod Purge
pub mod Ready
pub mod Fifo
pub mod Write
pub mod Read
