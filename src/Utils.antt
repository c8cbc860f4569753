-- ===== src/Utils.antt =====
-- utils.c: names and addresses of the registers, and the devices that the driver serves.
mod Offset
mod Names
pub mod Addresses
unfoldable pub use Offset.*
unfoldable pub use Names.*
