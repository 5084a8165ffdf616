-- ===== src/Firmware/Uart/Tests.antt =====
-- Three numbers that are printed.
