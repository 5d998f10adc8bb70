-- ===== src/FlashAgents/Stm32.antt =====
-- The flash agent of agents/stm32fxxx.c over the registers of the flash controller. A wait takes fuel
-- for its polls, and `none` means that it ran out.
use m3dev.Base.{
  ℕ, zero, suc, ◌+◌, ◌-◌, List, [], ◌∷◌, Option, none, some, ◌>>=◌, not, ◌||◌, ◌==◌, leb,
  if◌then◌else◌, get_or, bit_and, bit_or, u32, sub_u32, ◌<<<◌,
}
use m3dev.FlashAgents.{err_fail, err_alignment}

-- `writel`, `readl`, and reads of the buffer, over a state `W` of the processor.
pub record Registers (W : Type 0) : Type 0 where
  pub writel : ℕ → ℕ → W → W
  pub readl : ℕ → W → ℕ × W

abbrev pub flash_keyr : ℕ
flash_keyr = 0x40023C04

abbrev pub flash_sr : ℕ
flash_sr = 0x40023C0C

abbrev pub flash_cr : ℕ
flash_cr = 0x40023C10

abbrev pub flash_sr_bsy : ℕ
flash_sr_bsy = 0x10000

abbrev pub flash_sr_errmask : ℕ
flash_sr_errmask = 0xF2

abbrev pub flash_cr_lock : ℕ
flash_cr_lock = 0x80000000

abbrev pub flash_cr_strt : ℕ
flash_cr_strt = 0x10000

abbrev pub flash_cr_ser : ℕ
flash_cr_ser = 2

abbrev pub flash_cr_snb : ℕ → ℕ
flash_cr_snb n = bit_and n 15 <<< 3

-- FLASH_CR_PG | FLASH_CR_PSIZE_32
abbrev pub flash_cr_program : ℕ
flash_cr_program = 0x201

abbrev pub sectors : List ℕ
sectors =
    0x00000000 ∷ 0x00004000 ∷ 0x00008000 ∷ 0x0000C000 ∷ 0x00010000 ∷ 0x00020000 ∷ 0x00040000
    ∷ 0x00060000 ∷ 0x00080000 ∷ 0x000A0000 ∷ 0x000C0000 ∷ 0x000E0000 ∷ 0x00100000 ∷ []

abbrev pub sector : ℕ → ℕ
sector n = get_or sectors n 0

-- The search of `flash_agent_erase` from sector `n` on, with `left` to go.
unfoldable pub find_sector : ℕ → ℕ → ℕ → Option ℕ
find_sector zero n addr = none
find_sector (suc left) n addr =
    let rest = find_sector left (n + 1) addr in if addr == sector n then some n else rest

module _ {W : Type 0} (r : Registers W) where
  unfoldable pub flash_agent_setup : W → ℕ × W
  flash_agent_setup w =
      let w1 = r.writel 0xCDEF89AB flash_keyr (r.writel 0x45670123 flash_keyr w) in
      let (v, w2) = r.readl flash_cr w1 in
      (if not (bit_and v flash_cr_lock == 0) then err_fail else 0, w2)

  -- `while ((v = readl(FLASH_SR)) & FLASH_SR_BSY);`
  unfoldable pub wait_ready : ℕ → W → Option (ℕ × W)
  wait_ready zero w = none
  wait_ready (suc fuel) w =
      let (v, w') = r.readl flash_sr w in
      let rest = wait_ready fuel w' in if bit_and v flash_sr_bsy == 0 then some (v, w') else rest

  -- The two writes that erase sector `n`.
  unfoldable pub start_erase : ℕ → W → W
  start_erase n w =
      let select = bit_or flash_cr_ser (flash_cr_snb n) in
      let start = bit_or (bit_or flash_cr_strt flash_cr_ser) (flash_cr_snb n) in
      r.writel start flash_cr (r.writel select flash_cr w)

  -- The loop that erases, from sector `n` on, of which `left` are to come.
  unfoldable pub erase_from : ℕ → ℕ → ℕ → ℕ → ℕ → W → Option (ℕ × W)
  erase_from zero fuel n addr length w = some (0, w)
  erase_from (suc left) fuel n addr length w = do
    (v, w1) ← wait_ready fuel (start_erase n w)
    let more = erase_from left fuel (n + 1) addr length w1
    (if not (bit_and v flash_sr_errmask == 0)
        then some (err_fail, w1)
        else if n + 1 == 12 || leb length (sub_u32 (sector (n + 1)) addr)
        then some (0, w1)
        else more)

  -- Behind the search for the sector that begins at the address.
  unfoldable pub erase_at : Option ℕ → ℕ → ℕ → ℕ → W → Option (ℕ × W)
  erase_at none fuel addr length w = some (err_alignment, w)
  erase_at (some n) fuel addr length w = erase_from (12 - n) fuel n addr length w

  abbrev pub flash_agent_erase : ℕ → ℕ → ℕ → W → Option (ℕ × W)
  flash_agent_erase fuel addr length w = erase_at (find_sector 12 0 addr) fuel addr length w

  -- The loop of `flash_agent_write`, over the words that are left.
  unfoldable pub program_words : ℕ → ℕ → List ℕ → W → Option (ℕ × W)
  program_words fuel addr [] w = some (0, r.writel 0 flash_cr w)
  program_words fuel addr (x ∷ xs) w = do
    (v, w1) ← wait_ready fuel (r.writel x addr w)
    let rest = program_words fuel (u32 (addr + 4)) xs w1
    (if not (bit_and v flash_sr_errmask == 0)
        then some (err_fail, r.writel 0 flash_cr w1)
        else rest)

  -- `words` are those of the buffer up to `length` bytes.
  unfoldable pub flash_agent_write : ℕ → ℕ → List ℕ → ℕ → W → Option (ℕ × W)
  flash_agent_write fuel addr words length w =
      if not (bit_and addr 3 == 0) || not (bit_and length 3 == 0)
      then some (err_alignment, w)
      else program_words fuel addr words (r.writel flash_cr_program flash_cr w)
