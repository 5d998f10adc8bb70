-- ===== src/Wire/Line.antt =====
-- What the accesses of m3debug/swdp.c do on the serial wire, as the serial port's documentation has
-- it: a word written to SSP0_DR leaves the port with the digits that SSP0_CR0 asks for, the highest
-- first, and reaches the wire while the pin has the function MOSI.
use m3dev.Base.{
  ℕ, zero, suc, ◌+◌, ◌%◌, ◌≡◌, refl, Bool, true, List, [], ◌∷◌, ◌++◌, some, ◌==◌, if◌then◌else◌,
  replicate,
}
use m3dev.Wire.{
  Access, wrote, read, Bus, ssp0_cr0, ssp0_dr, ssp0_sr, ssp_busy, iocon_pio0_9, while_busy,
  transfer,
}
use m3dev.Wire.Digits.{bit}

-- The digits of a word that leave the probe, or come in: `k` of them, the highest first.
abbrev pub msb_first : ℕ → ℕ → List Bool
msb_first zero v = []
msb_first (suc k) v = bit v k ∷ msb_first k v

pub record Line : Type 0 where
  pub width : ℕ
  pub driven : Bool
  pub sent : List Bool

-- The port while the probe drives the wire in words of 16 digits, as it does between transactions.
abbrev pub idle : List Bool → Line
idle sent = record { width = 16; driven = true; sent = sent }

abbrev pub shift : Access → Line → Line
shift (read a) s = s
shift (wrote a v) s =
    if a == ssp0_cr0
    then record s { width = v % 16 + 1 }
    else if a == iocon_pio0_9
    then record s { driven = v % 8 == 1 }
    else if a == ssp0_dr
    then record s { sent = if s.driven then s.sent ++ msb_first s.width v else s.sent }
    else s

-- From the state before the accesses to the one behind them; the last access comes first.
abbrev pub line : Line → List Access → Line
line s [] = s
line s (a ∷ l) = shift a (line s l)

-- Reads that find the port busy `k` times, then idle, then the word `v`.
abbrev pub answered : ℕ → ℕ → List ℕ → List ℕ
answered k v rest = replicate k ssp_busy ++ (0 ∷ v ∷ rest)

abbrev pub bus : List ℕ → List Access → ℕ → ℕ → Bus
bus answers l rd wr = record { answers = answers; log = l; count_rd_wait = rd; count_wr_wait = wr }

unfoldable pub reads : ℕ → List Access → List Access
reads zero l = read ssp0_sr ∷ l
reads (suc k) l = reads k (read ssp0_sr ∷ l)

-- The log behind one transfer.
unfoldable pub moved : ℕ → ℕ → List Access → List Access
unfolding reads
moved k n l = read ssp0_dr ∷ reads k (wrote ssp0_dr n ∷ l)

pub while_busy-reads :
    (k : ℕ) (rest : List ℕ) (l : List Access)
    → while_busy (replicate k ssp_busy ++ (0 ∷ rest)) l ≡ some (rest, reads k l)
unfolding while_busy reads
while_busy-reads zero rest l = refl
while_busy-reads (suc k) rest l = while_busy-reads k rest (read ssp0_sr ∷ l)

pub transfer-answered :
    (k n v rd wr : ℕ) (rest : List ℕ) (l : List Access)
    → transfer n (bus (answered k v rest) l rd wr) ≡ some (v, bus rest (moved k n l) rd wr)
unfolding transfer moved
transfer-answered k n v rd wr rest l = rw (while_busy-reads k (v ∷ rest) (wrote ssp0_dr n ∷ l)) refl

pub line-reads : (s : Line) (k : ℕ) (l : List Access) → line s (reads k l) ≡ line s l
unfolding reads
line-reads s zero l = refl
line-reads s (suc k) l = line-reads s k (read ssp0_sr ∷ l)

pub line-moved :
    (s : Line) (k n : ℕ) (l : List Access)
    → line s (moved k n l) ≡ shift (wrote ssp0_dr n) (line s l)
unfolding moved
line-moved s k n l = line-reads s k (wrote ssp0_dr n ∷ l)
