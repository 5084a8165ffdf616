-- ===== src/Registers.antt =====
-- The bit fields of the registers (xrt86vx38-pac/src/register.rs, and its copy
-- tedium/tools/tedium-tool/src/framer/register.rs).
pub mod Layout
pub mod Values
pub mod Bitfield
pub mod Builder
pub mod Lens
pub mod Enumerations
pub mod Framing
pub mod Loopback
pub mod Counters
pub mod Lines
pub mod Catalogue
