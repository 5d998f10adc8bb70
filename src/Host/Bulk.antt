-- ===== src/Host/Bulk.antt =====
-- The block transfers of tools/rswdp.c, `swdp_ahb_read32` and `swdp_ahb_write32`, over any way to
-- carry out a transaction. A result of 0 is success; another number stands for its negative.
pub mod Chunk
pub mod Machine
pub mod Transfer
pub mod Read
pub mod Write
use m3dev.Base.{
  ℕ, zero, suc, ◌+◌, ◌-◌, ◌*◌, ◌/◌, ◌%◌, ◌^◌, ◌≤◌, Option, none, some, List, [], ◌∷◌, ◌++◌, ◌>>=◌,
  ◌==◌, ltb, if◌then◌else◌, length, u32, sub_u32, bit_and, bit_or,
}
use m3dev.Protocol.{op_ap, dp_buffer, ahb_csw, ahb_tar, ahb_drw, csw_single, csw_increment}
use m3dev.Host.Txn.{Txn, q_init, q_ap_write, swd_wr, swd_rd, swd_rx, put_tx, put_rx}

-- `xfer`: up to the page boundary, the words left, and MAXDATAWORDS, which is unsigned.
unfoldable pub chunk_size : ℕ → ℕ → ℕ → ℕ
chunk_size maxwords addr count =
    let page = (0x1000 - bit_and addr 0xFFF) / 4 in
    let xfer = if ltb count page then count else page in
    let room = sub_u32 maxwords 16 in if ltb room xfer then room else xfer

-- The addresses `out`, `out + 4`, … of `n` words.
abbrev pub word_addrs : ℕ → ℕ → List ℕ
word_addrs out zero = []
word_addrs out (suc n) = out ∷ word_addrs (out + 4) n

-- The words at these addresses.
abbrev pub words_at : (ℕ → ℕ) → ℕ → ℕ → List ℕ
words_at mem inp zero = []
words_at mem inp (suc n) = mem inp ∷ words_at mem (inp + 4) n

-- The transaction for one chunk of a read; `left` is the count behind it.
unfoldable pub read32_txn : ℕ → ℕ → ℕ → ℕ → Option Txn
unfolding q_ap_write
read32_txn addr out xfer left = do
  t1 ← q_ap_write q_init ahb_csw csw_increment
  t2 ← q_ap_write t1 ahb_tar addr
  let drw = bit_or op_ap (bit_and ahb_drw 0xC)
  let t3 = put_tx (swd_rd drw (sub_u32 xfer 1)) (put_tx (swd_rx drw 1) t2)
  let t4 = record t3 { rx = t3.rx ++ word_addrs out (xfer - 1) }
  let t5 = put_rx (out + 4 * (xfer - 1)) (put_tx (swd_rd dp_buffer 1) t4)
  if left == 0 then q_ap_write t5 ahb_csw csw_single else some t5

unfoldable pub write32_txn : ℕ → List ℕ → ℕ → Option Txn
unfolding q_ap_write
write32_txn addr vals left = do
  t1 ← q_ap_write q_init ahb_csw csw_increment
  t2 ← q_ap_write t1 ahb_tar addr
  let t3 = put_tx (swd_wr (bit_or op_ap (bit_and ahb_drw 0xC)) (length vals)) t2
  let t4 = record t3 { tx = t3.tx ++ vals }
  if left == 0 then q_ap_write t4 ahb_csw csw_single else some t4

module _ {H : Type 0} (q_exec : Txn → H → Option (ℕ × H)) (maxwords : ℕ) where
  -- `while (count > 0)`; `none` is an exit, or fuel that ran out.
  unfoldable pub swdp_ahb_read32 : ℕ → ℕ → ℕ → ℕ → H → Option (ℕ × H)
  swdp_ahb_read32 zero addr out count h = none
  swdp_ahb_read32 (suc fuel) addr out count h =
      let xfer = chunk_size maxwords addr count in
      let left = count - xfer in
      let round : Option (ℕ × H) = (do
        t ← read32_txn addr out xfer left
        (r, h') ← q_exec t h
        let rest = swdp_ahb_read32 fuel (u32 (addr + xfer * 4)) (out + 4 * (xfer - 1) + 4) left h'
        if r == 0 then rest else some (1, h')) in
      if count == 0 then some (0, h) else round

  unfoldable pub swdp_ahb_write32 : ℕ → (ℕ → ℕ) → ℕ → ℕ → ℕ → H → Option (ℕ × H)
  swdp_ahb_write32 zero mem addr inp count h = none
  swdp_ahb_write32 (suc fuel) mem addr inp count h =
      let xfer = chunk_size maxwords addr count in
      let left = count - xfer in
      let round : Option (ℕ × H) = (do
        t ← write32_txn addr (words_at mem inp xfer) left
        (r, h') ← q_exec t h
        let rest = swdp_ahb_write32 fuel mem (u32 (addr + xfer * 4)) (inp + 4 * xfer) left h'
        if r == 0 then rest else some (1, h')) in
      if count == 0 then some (0, h) else round
