-- ===== src/Host/Wait.antt =====
-- The waits of tools/rswdp.c, which poll the target until it answers as wanted, a read fails, or the
-- user interrupts. `x` is the address of the local variable, `load` reads the memory of the host and
-- `attn` is the counter ATTN of the interrupts. The results 1 and 2 stand for -1 and -2.
use m3dev.Base.{ℕ, zero, suc, Option, none, some, ◌>>=◌, ◌==◌, not, if◌then◌else◌, bit_and}
use m3dev.Protocol.{cdbg_csr, cdbg_s_halt}
use m3dev.Host.Txn.{Txn}
use m3dev.Host.Single.{swdp_ahb_read}

module _ {H : Type 0} (q_exec : Txn → H → Option (ℕ × H)) (load : H → ℕ → ℕ) (attn : H → ℕ)
    (x : ℕ) where
  -- The loop of `swdp_core_wait_for_halt`; it takes fuel, and `none` means that it ran out.
  unfoldable pub wait_for_halt_from : ℕ → ℕ → H → Option (ℕ × H)
  wait_for_halt_from last zero h = none
  wait_for_halt_from last (suc fuel) h = do
    (r, h1) ← swdp_ahb_read q_exec cdbg_csr x h
    let rest = wait_for_halt_from last fuel h1
    (if not (r == 0)
        then some (1, h1)
        else if not (bit_and (load h1 x) cdbg_s_halt == 0)
        then some (0, h1)
        else if not (attn h1 == last)
        then some (2, h1)
        else rest)

  unfoldable pub swdp_core_wait_for_halt : ℕ → H → Option (ℕ × H)
  swdp_core_wait_for_halt fuel h = wait_for_halt_from (attn h) fuel h

  -- The loop of `swdp_ahb_wait_for_change`.
  unfoldable pub wait_for_change_from : ℕ → ℕ → ℕ → ℕ → H → Option (ℕ × H)
  wait_for_change_from addr oldval last zero h = none
  wait_for_change_from addr oldval last (suc fuel) h = do
    (r, h1) ← swdp_ahb_read q_exec addr x h
    let rest = wait_for_change_from addr oldval last fuel h1
    (if not (r == 0)
        then some (1, h1)
        else if not (attn h1 == last)
        then some (2, h1)
        else if load h1 x == oldval
        then rest
        else some (0, h1))

  unfoldable pub swdp_ahb_wait_for_change : ℕ → ℕ → ℕ → H → Option (ℕ × H)
  swdp_ahb_wait_for_change addr oldval fuel h = wait_for_change_from addr oldval (attn h) fuel h
