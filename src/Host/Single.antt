-- ===== src/Host/Single.antt =====
-- The single operations of tools/rswdp.c: each builds a transaction and carries it out. `none` is
-- the exit of `q_check`.
pub mod Access
pub mod Queued
pub mod Cached
pub mod Requests
mod Tests
use m3dev.Base.{
  ℕ, zero, suc, ◌+◌, ◌*◌, Option, none, some, List, [], ◌∷◌, ◌>>=◌, ◌==◌, ltb, leb, not,
  if◌then◌else◌, bit_and, bit_or, ◌<<<◌,
}
use m3dev.Protocol.{
  rswd_msg, cmd_attach, cmd_reset, cmd_trace, cmd_bootloader, cmd_set_clock, cmd_swo_clock,
  dp_idcode, dp_abort, dp_dpctrl, ahb_csw, csw_single, cdbg_reg_addr, cdbg_reg_data,
}
use m3dev.Host.Txn.{
  Txn, q_init, q_ap_write, q_ap_read, q_ahb_write, q_ahb_read, swd_wr, swd_rd, put_tx, put_rx,
}

-- The processor's debug registers.
abbrev pub demcr : ℕ
demcr = 0xE000EDFC

abbrev pub dwt_comp : ℕ → ℕ
dwt_comp n = 0xE0001020 + n * 16

abbrev pub dwt_mask : ℕ → ℕ
dwt_mask n = 0xE0001024 + n * 16

abbrev pub dwt_func : ℕ → ℕ
dwt_func n = 0xE0001028 + n * 16

-- DEMCR_TRCENA | DEMCR_VC_CORERESET
abbrev pub trace_enable : ℕ
trace_enable = 0x01000001

abbrev pub dwt_fn_disabled : ℕ
dwt_fn_disabled = 0

abbrev pub dwt_fn_watch_pc : ℕ
dwt_fn_watch_pc = 4

abbrev pub dwt_fn_watch_rd : ℕ
dwt_fn_watch_rd = 5

abbrev pub dwt_fn_watch_wr : ℕ
dwt_fn_watch_wr = 6

abbrev pub dwt_fn_watch_rw : ℕ
dwt_fn_watch_rw = 7

unfoldable pub core_write_txn : ℕ → ℕ → Option Txn
unfolding q_ahb_write
core_write_txn n v = do
  t ← q_ahb_write q_init cdbg_reg_data v
  q_ahb_write t cdbg_reg_addr (bit_or (bit_and n 0x1F) 0x10000)

-- The queueing of `swdp_core_read`, from which `swdp_core_read_all` goes on.
unfoldable pub q_core_read : Txn → ℕ → ℕ → Option Txn
unfolding q_ahb_write q_ahb_read
q_core_read t n v = do
  t' ← q_ahb_write t cdbg_reg_addr (bit_and n 0x1F)
  q_ahb_read t' cdbg_reg_data v

-- The loop of `swdp_core_read_all` from register `n` on, with `left` registers to go.
unfoldable pub q_core_read_from : ℕ → ℕ → ℕ → Txn → Option Txn
unfolding q_core_read
q_core_read_from zero n v t = some t
q_core_read_from (suc left) n v t = do
  t' ← q_core_read t n v
  q_core_read_from left (n + 1) (v + 4) t'

unfoldable pub watchpoint_txn : ℕ → ℕ → ℕ → Option Txn
unfolding q_ahb_write
watchpoint_txn n addr func = do
  t1 ← q_ahb_write q_init demcr trace_enable
  t2 ← q_ahb_write t1 (dwt_func n) dwt_fn_disabled
  let enabled : Option Txn = (do
    t3 ← q_ahb_write t2 (dwt_comp n) addr
    t4 ← q_ahb_write t3 (dwt_mask n) 0
    t5 ← q_ahb_write t4 (dwt_func n) func
    some t5)
  if not (func == dwt_fn_disabled) then enabled else some t2

module _ {H : Type 0} (q_exec : Txn → H → Option (ℕ × H)) where
  unfoldable pub swdp_ap_write : ℕ → ℕ → H → Option (ℕ × H)
  swdp_ap_write addr value h = do t ← q_ap_write q_init addr value; q_exec t h

  unfoldable pub swdp_ap_read : ℕ → ℕ → H → Option (ℕ × H)
  swdp_ap_read addr value h = do t ← q_ap_read q_init addr value; q_exec t h

  unfoldable pub swdp_ahb_read : ℕ → ℕ → H → Option (ℕ × H)
  swdp_ahb_read addr value h = do t ← q_ahb_read q_init addr value; q_exec t h

  unfoldable pub swdp_ahb_write : ℕ → ℕ → H → Option (ℕ × H)
  swdp_ahb_write addr value h = do t ← q_ahb_write q_init addr value; q_exec t h

  unfoldable pub swdp_core_write : ℕ → ℕ → H → Option (ℕ × H)
  swdp_core_write n v h = do t ← core_write_txn n v; q_exec t h

  unfoldable pub swdp_core_read : ℕ → ℕ → H → Option (ℕ × H)
  swdp_core_read n v h = do t ← q_core_read q_init n v; q_exec t h

  unfoldable pub swdp_core_read_all : ℕ → H → Option (ℕ × H)
  swdp_core_read_all v h = do t ← q_core_read_from 19 0 v q_init; q_exec t h

  unfoldable pub swdp_watchpoint : ℕ → ℕ → ℕ → H → Option (ℕ × H)
  swdp_watchpoint n addr func h =
      let set_up : Option (ℕ × H) = (do t ← watchpoint_txn n addr func; q_exec t h) in
      if ltb 3 n then some (1, h) else set_up

  unfoldable pub swdp_set_clock : ℕ → H → Option (ℕ × H)
  swdp_set_clock khz h =
      let khz' = if ltb khz 1000 then 1000 else khz in
      if ltb 0xFFFF khz
      then some (1, h)
      else q_exec (put_tx (rswd_msg cmd_set_clock 0 khz') q_init) h

  abbrev pub swdp_watchpoint_pc : ℕ → ℕ → H → Option (ℕ × H)
  swdp_watchpoint_pc n addr = swdp_watchpoint n addr dwt_fn_watch_pc

  abbrev pub swdp_watchpoint_rd : ℕ → ℕ → H → Option (ℕ × H)
  swdp_watchpoint_rd n addr = swdp_watchpoint n addr dwt_fn_watch_rd

  abbrev pub swdp_watchpoint_wr : ℕ → ℕ → H → Option (ℕ × H)
  swdp_watchpoint_wr n addr = swdp_watchpoint n addr dwt_fn_watch_wr

  abbrev pub swdp_watchpoint_rw : ℕ → ℕ → H → Option (ℕ × H)
  swdp_watchpoint_rw n addr = swdp_watchpoint n addr dwt_fn_watch_rw

  abbrev pub swdp_watchpoint_disable : ℕ → H → Option (ℕ × H)
  swdp_watchpoint_disable n = swdp_watchpoint n 0 dwt_fn_disabled
