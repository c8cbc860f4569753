-- ===== src/Io/Fifo.antt =====
-- io.c: moving data between the frames and the FIFO of a card without DMA.
pub mod Send
pub mod Receive
pub mod Room
pub mod Chunks
pub mod Sent
pub mod Passed
pub mod Progress
