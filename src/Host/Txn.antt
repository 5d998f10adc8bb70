-- ===== src/Host/Txn.antt =====
-- The transaction builder of tools/rswdp.c, `struct txn` and the `q_` functions up to `q_exec`.
-- `none` is the exit of `q_check` on a full buffer.
use m3dev.Base.{
  ℕ, ◌+◌, Option, none, some, List, [], ◌∷◌, ◌++◌, ◌>>=◌, ◌==◌, leb, not, if◌then◌else◌, length,
  bit_and, bit_or,
}
use m3dev.Protocol.{
  rswd_msg, cmd_swd_write, cmd_swd_read, cmd_swd_discard, op_rd, op_wr, op_ap, dp_select, dp_buffer,
  ahb_tar, ahb_drw,
}

abbrev pub max_words : ℕ
max_words = 2048

abbrev pub txn_magic : ℕ
txn_magic = 0x12345678

-- `tx` is `tx[1..txc)`, since `tx[0]` is set by `q_exec`; `rx` is `rx[0..rxc)`, addresses in the
-- memory of the host.
pub record Txn : Type 0 where
  pub tx : List ℕ
  pub rx : List ℕ
  pub cache_apaddr : ℕ
  pub cache_ahbtar : ℕ
  pub magic : ℕ

abbrev pub txc : Txn → ℕ
txc t = length t.tx + 1

abbrev pub q_init : Txn
q_init = record {
  tx = [];
  rx = [];
  cache_apaddr = 0xffffffff;
  cache_ahbtar = 0xffffffff;
  magic = txn_magic;
}

-- SWD_WR, SWD_RD and SWD_RX
abbrev pub swd_wr : ℕ → ℕ → ℕ
swd_wr a n = rswd_msg cmd_swd_write (bit_or op_wr a) n

abbrev pub swd_rd : ℕ → ℕ → ℕ
swd_rd a n = rswd_msg cmd_swd_read (bit_or op_rd a) n

abbrev pub swd_rx : ℕ → ℕ → ℕ
swd_rx a n = rswd_msg cmd_swd_discard (bit_or op_rd a) n

-- `t->tx[t->txc++] = w` and `t->rx[t->rxc++] = p`
abbrev pub put_tx : ℕ → Txn → Txn
put_tx w t = record t { tx = t.tx ++ (w ∷ []) }

abbrev pub put_rx : ℕ → Txn → Txn
put_rx p t = record t { rx = t.rx ++ (p ∷ []) }

unfoldable pub q_check : Txn → ℕ → Option (Unit {0})
q_check t n = if leb max_words (txc t + n) then none else some tt

unfoldable pub q_ap_select : Txn → ℕ → Txn
q_ap_select t addr =
    let bank = bit_and addr 0xF0 in
    if not (t.cache_apaddr == bank)
    then record (put_tx bank (put_tx (swd_wr dp_select 1) t)) { cache_apaddr = bank }
    else t

unfoldable pub q_ap_write : Txn → ℕ → ℕ → Option Txn
unfolding q_check q_ap_select
q_ap_write t addr value = do
  ready ← q_check t 3
  some (put_tx value (put_tx (swd_wr (bit_or op_ap (bit_and addr 0xC)) 1) (q_ap_select t addr)))

unfoldable pub q_ap_read : Txn → ℕ → ℕ → Option Txn
unfolding q_check q_ap_select
q_ap_read t addr value = do
  ready ← q_check t 4
  let t1 = put_tx (swd_rx (bit_or op_ap (bit_and addr 0xC)) 1) (q_ap_select t addr)
  some (put_rx value (put_tx (swd_rd dp_buffer 1) t1))

-- The address register of the access port is written only where it would change.
unfoldable pub q_ahb_tar : Txn → ℕ → Option Txn
unfolding q_ap_write
q_ahb_tar t addr =
    if not (t.cache_ahbtar == addr)
    then (do t' ← q_ap_write t ahb_tar addr; some (record t' { cache_ahbtar = addr }))
    else some t

unfoldable pub q_ahb_write : Txn → ℕ → ℕ → Option Txn
unfolding q_ahb_tar
q_ahb_write t addr value = do t' ← q_ahb_tar t addr; q_ap_write t' ahb_drw value

unfoldable pub q_ahb_read : Txn → ℕ → ℕ → Option Txn
unfolding q_ahb_tar q_ap_read
q_ahb_read t addr value = do t' ← q_ahb_tar t addr; q_ap_read t' ahb_drw value
