-- ===== src/Codec.antt =====
-- The codecs (tedium/tools/tedium-tool/src/codec).
pub mod Ulaw
