-- ===== src/Device/Globals.antt =====
-- The registers of the whole chip (`Device` of xrt86vx38-pac/src/device.rs).
use tedium.Common.{ℕ}
use tedium.Common.Outcome.{Outcome}
use tedium.Device.Addressing.{global, global_0fex}

pub data GlobalRegister : Type 0 where
  liugcr0 liugcr1 liugcr2 liugcr3 liugcr4 liugcr5 devid revid : GlobalRegister

unfoldable pub global_address : GlobalRegister → Outcome ℕ
global_address liugcr0 = global_0fex 0x0
global_address liugcr1 = global_0fex 0x1
global_address liugcr2 = global_0fex 0x2
global_address liugcr3 = global_0fex 0x4
global_address liugcr4 = global_0fex 0x9
global_address liugcr5 = global_0fex 0xa
global_address devid = global 0x01fe
global_address revid = global 0x01ff
