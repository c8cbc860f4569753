-- ===== src/Io/Read.antt =====
-- io.c: fscc_io_read.
pub mod Frame
pub mod Stream
pub mod Bounds
pub mod Returned
pub mod Kept
use fscc_linux.Prelude.{ℕ, if◌then◌else◌}
use fscc_linux.Kernel.{Env, Ret}
use fscc_linux.State.{Port}
use fscc_linux.Port.Access.{is_streaming}
use Frame.{user_read_frame}
use Stream.{user_read_stream}

unfoldable pub io_read : Env → ℕ → Port → Ret × Port
io_read e count p = if is_streaming p then user_read_stream e count p else user_read_frame e count p
