-- ===== src/Wire.antt =====
-- The serial wire engine of the probe, m3debug/swdp.c, over the registers of the LPC13xx's first
-- serial port, and `writel` and `readl` of include/fw/io.h. `answers` are the values that the reads of
-- registers give, in their order, and `log` the accesses, the last one first. `none` means that the
-- answers ended, or the fuel for the retries. A result of `true` stands for -1.
pub mod Digits
pub mod Reverse
pub mod Parity
pub mod Line
pub mod Frames
pub mod Receive
pub mod Turn
pub mod Write
pub mod Read
pub mod Reset
mod Tests
use m3dev.Base.{
  ℕ, zero, suc, ◌+◌, ◌-◌, Bool, true, false, not, List, [], ◌∷◌, Option, none, some, ◌>>=◌, ◌==◌,
  if◌then◌else◌, bit_and, bit_or, u32, ◌<<<◌, ◌>>>◌,
}

abbrev pub ssp0_cr0 : ℕ
ssp0_cr0 = 0x40040000

abbrev pub ssp0_dr : ℕ
ssp0_dr = 0x40040008

abbrev pub ssp0_sr : ℕ
ssp0_sr = 0x4004000C

abbrev pub ssp_busy : ℕ
ssp_busy = 16

-- The pin of MOSI: the address and the values are those of include-v1.
abbrev pub iocon_pio0_9 : ℕ
iocon_pio0_9 = 0x40044064

abbrev pub iocon_func_1 : ℕ
iocon_func_1 = 1

abbrev pub iocon_digital : ℕ
iocon_digital = 0x80

-- SSP_CR0_FRAME_SPI and SSP_CR0_CLOCK_RATE(1) are 0.
abbrev pub ssp_cr0_clk_high : ℕ
ssp_cr0_clk_high = 0x40

abbrev pub ssp_cr0_phase1 : ℕ
ssp_cr0_phase1 = 0x80

pub data Access : Type 0 where
  wrote : ℕ → ℕ → Access
  read : ℕ → Access

pub record Bus : Type 0 where
  pub answers : List ℕ
  pub log : List Access
  pub count_rd_wait : ℕ
  pub count_wr_wait : ℕ

abbrev pub writel : ℕ → ℕ → Bus → Bus
writel v a b = record b { log = wrote a v ∷ b.log }

unfoldable pub readl : ℕ → Bus → Option (ℕ × Bus)
readl a b = elim b.answers [
  | [] ↦ none
  | v ∷ rest ↦ some (v, record b { answers = rest; log = read a ∷ b.log })
]

abbrev pub dir_out : ℕ → Bus → Bus
dir_out n b =
    writel (bit_or iocon_func_1 iocon_digital) iocon_pio0_9
      (writel (bit_or (bit_or (n - 1) ssp_cr0_clk_high) ssp_cr0_phase1) ssp0_cr0 b)

abbrev pub dir_in : ℕ → Bus → Bus
dir_in n b = writel (bit_or (n - 1) ssp_cr0_clk_high) ssp0_cr0 (writel iocon_digital iocon_pio0_9 b)

-- `while (readl(SSP0_SR) & SSP_BUSY);` from the answers and the log, to what is left of them.
unfoldable pub while_busy : List ℕ → List Access → Option (List ℕ × List Access)
while_busy [] l = none
while_busy (s ∷ rest) l =
    let again = while_busy rest (read ssp0_sr ∷ l) in
    if bit_and s ssp_busy == 0 then some (rest, read ssp0_sr ∷ l) else again

-- The value that came in while `n` went out: XMIT drops it, and RECV sends 0.
unfoldable pub transfer : ℕ → Bus → Option (ℕ × Bus)
unfolding readl
transfer n b = do
  (rest, l) ← while_busy b.answers (wrote ssp0_dr n ∷ b.log)
  readl ssp0_dr (record b { answers = rest; log = l })

abbrev pub xmit : ℕ → Bus → Option Bus
xmit n b = do (v, b') ← transfer n b; some b'

abbrev pub recv : Bus → Option (ℕ × Bus)
recv b = transfer 0 b

-- `k` writes of the word to the transmit queue, and as many reads of what came in.
unfoldable pub write_times : ℕ → ℕ → Bus → Bus
write_times zero v b = b
write_times (suc k) v b = write_times k v (writel v ssp0_dr b)

unfoldable pub read_times : ℕ → Bus → Option Bus
read_times zero b = some b
read_times (suc k) b = do (v, b') ← readl ssp0_dr b; read_times k b'

unfoldable pub burst : ℕ → ℕ → Bus → Option Bus
unfolding write_times read_times readl
burst k v b =
    let b1 = write_times k v b in
    do
      (rest, l) ← while_busy b1.answers b1.log
      read_times k (record b1 { answers = rest; log = l })

unfoldable pub swdp_reset : Bus → Option Bus
unfolding burst
swdp_reset b = do
  b1 ← burst 4 0xFFFF (dir_out 16 b)
  b2 ← burst 1 0b0111100111100111 b1
  burst 4 0xFFFF b2

unfoldable pub revbits : ℕ → ℕ
revbits n =
    let n1 = bit_or (bit_and (n >>> 1) 0x55555555) (bit_and (u32 (n <<< 1)) 0xaaaaaaaa) in
    let n2 = bit_or (bit_and (n1 >>> 2) 0x33333333) (bit_and (u32 (n1 <<< 2)) 0xcccccccc) in
    let n3 = bit_or (bit_and (n2 >>> 4) 0x0f0f0f0f) (bit_and (u32 (n2 <<< 4)) 0xf0f0f0f0) in
    let n4 = bit_or (bit_and (n3 >>> 8) 0x00ff00ff) (bit_and (u32 (n3 <<< 8)) 0xff00ff00) in
    bit_or (bit_and (n4 >>> 16) 0x0000ffff) (bit_and (u32 (n4 <<< 16)) 0xffff0000)

unfoldable pub parity : ℕ → ℕ
parity n =
    let n1 = bit_and n 0x55555555 + (bit_and n 0xaaaaaaaa >>> 1) in
    let n2 = bit_and n1 0x33333333 + (bit_and n1 0xcccccccc >>> 2) in
    let n3 = bit_and n2 0x0f0f0f0f + (bit_and n2 0xf0f0f0f0 >>> 4) in
    let n4 = bit_and n3 0x00ff00ff + (bit_and n3 0xff00ff00 >>> 8) in
    bit_and (bit_and n4 0x0000ffff + (bit_and n4 0xffff0000 >>> 16)) 1

-- "transmit X D0..D31 P"
unfoldable pub send_value : ℕ → Bus → Option (Bool × Bus)
send_value value b =
    let p = parity value in
    let v = revbits value in
    do
      b1 ← xmit (bit_or 0x100 (v >>> 24)) (dir_out 9 b)
      b2 ← xmit (v >>> 8) (dir_out 16 b1)
      b3 ← xmit (bit_or (u32 (v <<< 1)) p) (dir_out 9 b2)
      some (false, dir_out 16 b3)

-- "D0..D31 P X"
unfoldable pub receive_value : Bus → Option (Bool × ℕ × Bus)
receive_value b0 = do
  (a, b1) ← recv (dir_in 16 b0)
  (b, b2) ← recv (dir_in 8 b1)
  (c, b3) ← recv (dir_in 10 b2)
  some (false, revbits (bit_or (bit_or (u32 (a <<< 16)) (b <<< 8)) (c >>> 2)), dir_out 16 b3)

unfoldable pub swdp_write : ℕ → ℕ → ℕ → Bus → Option (Bool × Bus)
swdp_write zero n v b = none
swdp_write (suc fuel) n v b = do
  b1 ← xmit n b
  (a, b2) ← recv (dir_in 4 b1)
  let out = dir_out 16 b2
  let again = swdp_write fuel n v (record out { count_wr_wait = out.count_wr_wait + 1 })
  let refused = if bit_and a 7 == 2 then again else some (true, out)
  let accepted = send_value v b2
  if not (bit_and a 7 == 4) then refused else accepted

unfoldable pub swdp_read : ℕ → ℕ → Bus → Option (Bool × ℕ × Bus)
swdp_read zero n b = none
swdp_read (suc fuel) n b = do
  b1 ← xmit n b
  (a, b2) ← recv (dir_in 4 b1)
  let out = dir_out 16 b2
  let again = swdp_read fuel n (record out { count_rd_wait = out.count_rd_wait + 1 })
  let refused = if bit_and a 7 == 2 then again else some (true, 0xffffffff, out)
  let accepted = receive_value b2
  if not (bit_and a 7 == 4) then refused else accepted
