-- ===== src/FlashAgents.antt =====
-- The flash agents, which the host downloads to the target: `Stm32` is agents/stm32fxxx.c, `Lpc`
-- agents/lpc13xx_lpc15xx.c. `Sectors` holds the theorem about the erased sectors.
pub mod Stm32
pub mod Lpc
pub mod Sectors
mod Tests
use m3dev.Base.{ℕ}

-- ERR_FAIL, ERR_INVALID and ERR_ALIGNMENT of include/agent/flash.h, as bit patterns.
abbrev pub err_fail : ℕ
err_fail = 0xFFFFFFFF

abbrev pub err_invalid : ℕ
err_invalid = 0xFFFFFFFE

abbrev pub err_alignment : ℕ
err_alignment = 0xFFFFFFFD
