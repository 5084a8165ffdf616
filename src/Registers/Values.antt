-- ===== src/Registers/Values.antt =====
-- The enumerations that the fields of the registers hold (xrt86vx38-pac/src/register.rs).
mod Derive
mod Framer
mod Timeslots
mod Lines
pub use Derive.{Specifier, value}
unfoldable pub use Framer.*
unfoldable pub use Timeslots.*
unfoldable pub use Lines.*
