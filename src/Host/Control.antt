-- ===== src/Host/Control.antt =====
-- Halt, step and resume of the target's processor, tools/rswdp.c: read, change and write the
-- control register. `load` reads the memory of the host, and `x` is the address of the local
-- variable. A result of 1 stands for -1.
pub mod Csr
pub mod Writes
mod Tests
use m3dev.Base.{
  ℕ, ◌+◌, Option, none, some, ◌>>=◌, ◌==◌, ltb, not, Bool, if◌then◌else◌, bit_and, bit_or,
}
use m3dev.Protocol.{cdbg_csr}
use m3dev.Host.Txn.{Txn}
use m3dev.Host.Single.{swdp_ahb_read, swdp_ahb_write}

abbrev pub cdbg_csr_key : ℕ
cdbg_csr_key = 0xA05F0000

abbrev pub cdbg_c_maskints : ℕ
cdbg_c_maskints = 8

abbrev pub cdbg_c_step : ℕ
cdbg_c_step = 4

abbrev pub cdbg_c_halt : ℕ
cdbg_c_halt = 2

abbrev pub cdbg_c_debugen : ℕ
cdbg_c_debugen = 1

-- CDBG_C_HALT | CDBG_C_DEBUGEN | CDBG_C_MASKINTS
abbrev pub kept_bits : ℕ
kept_bits = 0xB

module _ {H : Type 0} (q_exec : Txn → H → Option (ℕ × H)) (load : H → ℕ → ℕ) where
  -- `swdp_ahb_write(CDBG_CSR, x)` where its result is not looked at, and `x` again.
  abbrev pub write_csr : ℕ → H → Option (ℕ × H)
  write_csr v h = do (r, h') ← swdp_ahb_write q_exec cdbg_csr v h; some (v, h')

  -- MASKINTS is set, or cleared, where it is not already.
  unfoldable pub set_maskints : Bool → ℕ → H → Option (ℕ × H)
  set_maskints wanted v h =
      let on : Option (ℕ × H) = write_csr (bit_or v cdbg_c_maskints) h in
      let off : Option (ℕ × H) = write_csr (bit_and v 0xFFFFFFF7) h in
      if wanted
      then (if bit_and v cdbg_c_maskints == 0 then on else some (v, h))
      else (if not (bit_and v cdbg_c_maskints == 0) then off else some (v, h))

  unfoldable pub swdp_core_halt : ℕ → H → Option (ℕ × H)
  swdp_core_halt x h = do
    (r, h1) ← swdp_ahb_read q_exec cdbg_csr x h
    let written : Option (ℕ × H) =
        swdp_ahb_write q_exec cdbg_csr (bit_or (bit_and (load h1 x) kept_bits) 0xA05F0003) h1
    if not (r == 0) then some (1, h1) else written

  -- The steps behind the read of the register, with its value.
  unfoldable pub step_from : ℕ → ℕ → H → Option (ℕ × H)
  unfolding set_maskints
  step_from no_ints value h =
      let v = bit_or (bit_and value kept_bits) cdbg_csr_key in
      let halting : Option (ℕ × H) = write_csr (bit_or v 3) h in
      do
        (v1, h1) ← (if bit_and v cdbg_c_halt == 0 then halting else some (v, h))
        (v2, h2) ← set_maskints (not (no_ints == 0)) v1 h1
        swdp_ahb_write q_exec cdbg_csr (bit_or (bit_and v2 0xFFFFFFFD) cdbg_c_step) h2

  unfoldable pub swdp_core_step : ℕ → ℕ → H → Option (ℕ × H)
  unfolding step_from
  swdp_core_step no_ints x h = do
    (r, h1) ← swdp_ahb_read q_exec cdbg_csr x h
    let stepped : Option (ℕ × H) = step_from no_ints (load h1 x) h1
    if not (r == 0) then some (1, h1) else stepped

  unfoldable pub resume_from : ℕ → ℕ → H → Option (ℕ × H)
  unfolding set_maskints
  resume_from no_ints value h = do
    (v1, h1) ← set_maskints (ltb 1 no_ints) (bit_or (bit_and value kept_bits) 0xA05F0001) h
    swdp_ahb_write q_exec cdbg_csr (bit_and v1 0xFFFFFFF9) h1

  unfoldable pub swdp_core_resume : ℕ → ℕ → H → Option (ℕ × H)
  unfolding resume_from
  swdp_core_resume no_ints x h = do
    (r, h1) ← swdp_ahb_read q_exec cdbg_csr x h
    let resumed : Option (ℕ × H) = resume_from no_ints (load h1 x) h1
    if not (r == 0) then some (1, h1) else resumed
