-- ===== src/Device.antt =====
-- The register map of the framer chip (xrt86vx38-pac/src/device.rs, and its copy
-- tedium/tools/tedium-tool/src/framer/device.rs).
pub mod Offsets
pub mod Addressing
pub mod Access
pub mod Globals
pub mod Iterators
pub mod Accessors
