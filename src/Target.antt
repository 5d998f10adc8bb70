-- ===== src/Target.antt =====
-- What the tools of the host call of tools/rswdp.c, over the state `W` of the link and the target.
-- A read gives its result, 0 for success, and the value that it stored. `calloc` is the C library's: it
-- says whether there was memory.
use m3dev.Base.{ℕ, Bool, List}

pub record Target (W : Type 0) : Type 0 where
  pub calloc : W → Bool × W
  pub swdp_ahb_read : ℕ → W → ℕ × ℕ × W
  pub swdp_ahb_write : ℕ → ℕ → W → W
  pub swdp_ahb_read32 : ℕ → ℕ → W → ℕ × List ℕ × W
  pub swdp_ahb_write32 : ℕ → List ℕ → W → W
  pub swdp_core_read : ℕ → W → ℕ × ℕ × W
  pub swdp_core_write : ℕ → ℕ → W → W
  pub swdp_core_read_all : W → List ℕ × W
  pub swdp_core_halt : W → W
  pub swdp_core_step : W → W
  pub swdp_core_resume : W → W
  pub swdp_watchpoint_pc : ℕ → ℕ → W → W
  pub swdp_watchpoint_disable : ℕ → W → W
