-- ===== src/Host/Attach.antt =====
-- What tools/rswdp.c asks of the probe itself: attaching, errors, resets and clocks. `idcode` and `n`
-- are the addresses of the local variables; a result of 1 stands for -1.
use m3dev.Base.{ℕ, Option, some, ◌>>=◌, ◌==◌, ltb, if◌then◌else◌}
use m3dev.Protocol.{
  rswd_msg, cmd_attach, cmd_reset, cmd_trace, cmd_bootloader, cmd_swo_clock, dp_idcode, dp_abort,
  dp_dpctrl, ahb_csw, csw_single,
}
use m3dev.Host.Txn.{Txn, q_init, q_ap_write, swd_wr, swd_rd, put_tx, put_rx}

-- The two bits of DP_DPCTRL that power the debug port up.
abbrev pub power_up : ℕ
power_up = 0x50000000

abbrev pub attach_txn : ℕ → Txn
attach_txn idcode =
    put_rx idcode (put_tx (swd_rd dp_idcode 1) (put_tx (rswd_msg cmd_attach 0 0) q_init))

abbrev pub clear_txn : Txn
clear_txn = put_tx 0x1E (put_tx (swd_wr dp_abort 1) q_init)

abbrev pub power_txn : ℕ → Option Txn
power_txn n =
    q_ap_write
      (put_rx n
        (put_tx (swd_rd dp_dpctrl 1) (put_tx power_up (put_tx (swd_wr dp_dpctrl 1) clear_txn))))
      ahb_csw csw_single

module _ {H : Type 0} (q_exec : Txn → H → Option (ℕ × H)) where
  unfoldable pub swdp_bootloader : H → Option (ℕ × H)
  swdp_bootloader h = q_exec (put_tx (rswd_msg cmd_bootloader 0 0) q_init) h

  unfoldable pub swdp_enable_tracing : ℕ → H → Option H
  swdp_enable_tracing tracing h = do
    (r, h') ← q_exec (put_tx (rswd_msg cmd_trace tracing 0) q_init) h
    some h'

  unfoldable pub swdp_target_reset : ℕ → H → Option H
  swdp_target_reset enable h = do
    (r, h') ← q_exec (put_tx (rswd_msg cmd_reset 0 enable) q_init) h
    some h'

  unfoldable pub swo_set_clock : ℕ → H → Option (ℕ × H)
  swo_set_clock khz h =
      let khz' = if ltb khz 1000 then 1000 else khz in
      if ltb 0xFFFF khz
      then some (1, h)
      else q_exec (put_tx (rswd_msg cmd_swo_clock 0 khz') q_init) h

  -- The global `swd_error`, read and set.
  module _ (error : H → ℕ) (set_error : ℕ → H → H) where
    unfoldable pub swdp_reset : ℕ → ℕ → H → Option (ℕ × H)
    swdp_reset idcode n h = do
      (r1, h1) ← q_exec (attach_txn idcode) (set_error 0 h)
      t ← power_txn n
      (r2, h2) ← q_exec t (set_error 0 h1)
      some (if r2 == 0 then 0 else 1, h2)

    unfoldable pub swdp_clear_error : H → Option (ℕ × H)
    swdp_clear_error h =
        let cleared : Option (ℕ × H) = (do
          (r, h') ← q_exec clear_txn (set_error 0 h)
          some (error h', h')) in
        if error h == 0 then some (0, h) else cleared
