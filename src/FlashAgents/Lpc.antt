-- ===== src/FlashAgents/Lpc.antt =====
-- The flash agent of agents/lpc13xx_lpc15xx.c. The ROM's `romcall` takes the parameters and gives its
-- status. The buffer is bytes.
use m3dev.Base.{
  ℕ, ◌+◌, ◌-◌, List, [], ◌∷◌, ◌++◌, not, ◌==◌, ltb, if◌then◌else◌, take, replicate, bit_and, u32,
  sub_u32, ◌>>>◌,
}
use m3dev.FlashAgents.{err_fail, err_invalid, err_alignment}

abbrev pub lpc_iap_prepare : ℕ
lpc_iap_prepare = 50

abbrev pub lpc_iap_write : ℕ
lpc_iap_write = 51

abbrev pub lpc_iap_erase : ℕ
lpc_iap_erase = 52

pub record Rom (W : Type 0) : Type 0 where
  pub romcall : List ℕ → W → ℕ × W
  pub buffer : W → List ℕ
  pub set_buffer : List ℕ → W → W

module _ {W : Type 0} (rom : Rom W) where
  unfoldable pub erase_pages : ℕ → ℕ → W → ℕ × W
  erase_pages flash_addr size w =
      let page = flash_addr >>> 12 in
      let last = u32 (page + (sub_u32 size 1 >>> 12)) in
      let (r1, w1) = rom.romcall (lpc_iap_prepare ∷ page ∷ last ∷ []) w in
      let (r2, w2) = rom.romcall (lpc_iap_erase ∷ page ∷ last ∷ 0x2ee0 ∷ []) w1 in
      if not (bit_and flash_addr 0xFFF == 0)
      then (err_alignment, w)
      else if not (r1 == 0)
      then (err_fail, w1)
      else if not (r2 == 0)
      then (err_fail, w2)
      else (0, w2)

  -- The bytes of the buffer behind `size` are cleared, up to a whole page.
  abbrev pub cleared : ℕ → W → W
  cleared size w =
      if ltb size 4096
      then rom.set_buffer (take size (rom.buffer w) ++ replicate (4096 - size) 0) w
      else w

  -- `address` is the buffer's.
  unfoldable pub write_page : ℕ → ℕ → ℕ → W → ℕ × W
  write_page flash_addr address size w =
      let page = flash_addr >>> 12 in
      let (r1, w1) = rom.romcall (lpc_iap_prepare ∷ page ∷ page ∷ []) w in
      let (r2, w2) =
        rom.romcall (lpc_iap_write ∷ flash_addr ∷ address ∷ 0x1000 ∷ 0x2ee0 ∷ [])
          (cleared size w1) in
      if not (bit_and flash_addr 0xFFF == 0)
      then (err_alignment, w)
      else if not (r1 == 0)
      then (err_fail, w1)
      else if not (r2 == 0)
      then (err_fail, w2)
      else (0, w2)

  abbrev pub ioctl : W → ℕ × W
  ioctl w = (err_invalid, w)
