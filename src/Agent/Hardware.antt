-- ===== src/Agent/Hardware.antt =====
-- What `process_txn` of m3debug/main.c calls: the wire protocol of m3debug/swdp.c, the pins, the
-- SSP clock, the console and the USB endpoint. `W` is the state behind these calls.
use m3dev.Base.{ℕ, Bool, List}

-- `func`, the pointer that `process_txn` calls after the reply.
pub data Func : Type 0 where
  no_func : Func
  code_at : ℕ → Func
  reboot_bootloader : Func

pub data PinDir : Type 0 where
  gpio_cfg_in gpio_cfg_out : PinDir

pub record Port (W : Type 0) : Type 0 where
  -- The result is true for a failure (a result that is not 0); `*out` is written in both cases.
  pub swdp_read : ℕ → W → Bool × ℕ × W
  pub swdp_write : ℕ → ℕ → W → Bool × W
  pub swdp_reset : W → W
  -- `gpio_cfg_dir(gpio_reset_n, dir)` and `gpio_clr(gpio_reset_n)`
  pub gpio_cfg_dir : PinDir → W → W
  pub gpio_clr : W → W
  -- The clock that was set, in KHz.
  pub ssp0_set_clock : ℕ → W → ℕ × W
  -- The two messages, "swdp clock is now" and "unknown command".
  pub printu_clock : ℕ → W → W
  pub printx_unknown : ℕ → W → W
  -- `*addr = word` in the memory of the agent
  pub store : ℕ → ℕ → W → W
  pub usb_xmit : List ℕ → W → W
  -- What memory holds from the end of `optable` on, for an operation above 15.
  pub past_optable : ℕ → ℕ
