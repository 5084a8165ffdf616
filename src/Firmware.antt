-- ===== src/Firmware.antt =====
-- The firmware of the soft core (tedium-soc/src): the configuration of the chip, reports of interrupts
-- to the host, requests of the host, and the debug port.
pub mod Effect
pub mod Report
pub mod Request
pub mod Service
pub mod Uart
pub mod Configuration
