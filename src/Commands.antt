-- ===== src/Commands.antt =====
-- Commands of the debugger, tools/debugger-commands.c. What they print is left out, but for the lines
-- of words and bytes. A result of 0xFFFFFFFF stands for -1.
pub mod Control
pub mod Flash
pub mod Download
use m3dev.Base.{
  ℕ, zero, suc, ◌+◌, ◌-◌, ◌*◌, ◌/◌, ◌%◌, List, [], ◌∷◌, ◌++◌, Option, none, some, not, ◌==◌, ltb,
  if◌then◌else◌, get_or, take, drop, bit_and, bit_or, u32, ascii, same_text,
}
use m3dev.Debugger.{Param, error, no_param}
use m3dev.Debugger.Numbers.{core_regmap, find_register}

-- What the commands call of tools/rswdp.c, over the state `W` of the link and the target: each call
-- gives its result first. A read is given what its variable holds and says what it then holds.
pub record Probe (W : Type 0) : Type 0 where
  pub swdp_reset : W → ℕ × W
  pub swdp_target_reset : ℕ → W → ℕ × W
  pub swdp_bootloader : W → ℕ × W
  pub swdp_set_clock : ℕ → W → ℕ × W
  pub swo_set_clock : ℕ → W → ℕ × W
  pub swdp_ahb_read : ℕ → ℕ → W → ℕ × ℕ × W
  pub swdp_ahb_write : ℕ → ℕ → W → ℕ × W
  pub swdp_ahb_read32 : ℕ → ℕ → W → ℕ × List ℕ × W
  pub swdp_ahb_write32 : ℕ → List ℕ → W → ℕ × W
  pub swdp_core_read : ℕ → ℕ → W → ℕ × ℕ × W
  pub swdp_core_write : ℕ → ℕ → W → ℕ × W
  pub swdp_core_read_all : W → ℕ × List ℕ × W
  pub swdp_core_halt : W → ℕ × W
  pub swdp_core_step : W → ℕ × W
  pub swdp_core_resume : W → ℕ × W
  pub swdp_core_wait_for_halt : W → ℕ × W
  pub swdp_watchpoint_pc : ℕ → ℕ → W → ℕ × W
  pub swdp_watchpoint_rw : ℕ → ℕ → W → ℕ × W
  pub swdp_watchpoint_disable : ℕ → W → ℕ × W

-- A line of `dw` or `db`: the address, and the words or bytes behind it.
abbrev pub Row : Type 0
Row = ℕ × List ℕ

-- The static variables of tools/debugger-commands.c, `swdp_step_no_ints`, the lines that are printed,
-- and the link and the target.
pub record Shell (W : Type 0) : Type 0 where
  pub lastregs : List ℕ
  pub lastaddr : ℕ
  pub lastcount : ℕ
  pub vcflags : ℕ
  pub agent_arch : Option (List ℕ)
  pub swdp_step_no_ints : ℕ
  pub printed : List Row
  pub world : W

abbrev pub aircr : ℕ
aircr = 0xe000ed0c

abbrev pub demcr_trcena : ℕ
demcr_trcena = 0x01000000

abbrev pub demcr_vc_corereset : ℕ
demcr_vc_corereset = 1

abbrev pub demcr_mon_pend : ℕ
demcr_mon_pend = 0x20000

abbrev pub dcrdr : ℕ
dcrdr = 0xE000EDF8

abbrev pub sram : ℕ
sram = 0x20000000

-- The rows that `do_dw` prints: four words each, and what is left.
unfoldable pub word_rows : ℕ → ℕ → ℕ → List ℕ → List Row
word_rows zero addr count words = []
word_rows (suc fuel) addr count words =
    let rest = word_rows fuel (u32 (addr + 16)) (count - 4) (drop 4 words) in
    if count == 0
    then []
    else if ltb count 4
    then (addr, take count words) ∷ []
    else (addr, take 4 words) ∷ rest

-- The rows that `do_db` prints: sixteen bytes each, and what is left.
unfoldable pub byte_rows : ℕ → ℕ → ℕ → List ℕ → List Row
byte_rows zero addr count bytes = []
byte_rows (suc fuel) addr count bytes =
    let xfer = if ltb 16 count then 16 else count in
    let rest = byte_rows fuel (u32 (addr + xfer)) (count - xfer) (drop xfer bytes) in
    if count == 0 then [] else (addr, take xfer bytes) ∷ rest

module _ {W : Type 0} where
  -- A call of the library by a command that does not look at its result, or that returns it.
  abbrev pub run : (W → ℕ × W) → Shell W → Shell W
  run call sh = record sh { world = (call sh.world).1 }

  abbrev pub return : (W → ℕ × W) → Shell W → ℕ × Shell W
  return call sh = let (r, w) = call sh.world in (r, record sh { world = w })

module _ {W : Type 0} (p : Probe W) where
  abbrev pub do_attach : Shell W → ℕ × Shell W
  do_attach = return p.swdp_reset

  unfoldable pub do_regs : Shell W → ℕ × Shell W
  do_regs sh =
      let (r, regs, w) = p.swdp_core_read_all sh.world in
      let sh' = record sh { lastregs = regs; world = w } in
      if r == 0 then (0, sh') else (error, sh')

  unfoldable pub do_stop : Shell W → ℕ × Shell W
  unfolding do_regs
  do_stop sh = (0, (do_regs (run p.swdp_core_halt sh)).1)

  unfoldable pub do_resume : Shell W → ℕ × Shell W
  do_resume sh = (0, run p.swdp_core_resume sh)

  abbrev pub one_step : Shell W → Shell W
  one_step sh = run p.swdp_core_wait_for_halt (run p.swdp_core_step sh)

  -- `do … while (pc != argv[0].n)` on fuel; `some` of a result or of the state behind the loop.
  unfoldable pub step_until : ℕ → ℕ → ℕ → Shell W → Option (ℕ × Shell W)
  step_until zero pc addr sh = none
  step_until (suc fuel) pc addr sh =
      let sh' = one_step sh in
      let (r, pc', w) = p.swdp_core_read 15 pc sh'.world in
      let sh2 = record sh' { world = w } in
      let again = step_until fuel pc' addr sh2 in
      if not (r == 0)
      then some (error, sh2)
      else if pc' == addr
      then some (0, (do_regs sh2).1)
      else again

  unfoldable pub do_step : ℕ → List Param → Shell W → Option (ℕ × Shell W)
  unfolding do_regs step_until
  do_step fuel [] sh = some (0, (do_regs (one_step sh)).1)
  do_step fuel (a ∷ argv) sh = step_until fuel 0 a.n sh

  unfoldable pub do_dr : List Param → Shell W → ℕ × Shell W
  do_dr [] sh = (error, sh)
  do_dr (a ∷ argv) sh = elim (find_register a.s core_regmap) [
    | some n ↦
        let (r, x, w) = p.swdp_core_read n 0xeeeeeeee sh.world in
        (0, record sh { printed = sh.printed ++ ((n, x ∷ []) ∷ []); world = w })
    | none ↦
        let (r, x, w) = p.swdp_ahb_read a.n 0xeeeeeeee sh.world in
        (0, record sh { printed = sh.printed ++ ((a.n, x ∷ []) ∷ []); world = w })
  ]

  unfoldable pub do_wr : List Param → Shell W → ℕ × Shell W
  do_wr [] sh = (error, sh)
  do_wr (a ∷ []) sh = (error, sh)
  do_wr (a ∷ b ∷ argv) sh = elim (find_register a.s core_regmap) [
    | some n ↦ (0, run (p.swdp_core_write n b.n) sh)
    | none ↦ (0, run (p.swdp_ahb_write a.n b.n) sh)
  ]

  -- The addresses and counts of `dw`, from its arguments or from those of the last one.
  abbrev pub dw_addr : List Param → Shell W → ℕ
  dw_addr [] sh = sh.lastaddr
  dw_addr (a ∷ argv) sh = a.n

  abbrev pub dw_count : List Param → Shell W → ℕ
  dw_count [] sh = sh.lastcount
  dw_count (a ∷ []) sh = sh.lastcount
  dw_count (a ∷ b ∷ argv) sh = b.n

  unfoldable pub do_dw : List Param → Shell W → ℕ × Shell W
  unfolding word_rows
  do_dw argv sh =
      let addr = bit_and (u32 (dw_addr argv sh + 3)) 0xFFFFFFFC in
      let wanted = bit_and (u32 (dw_count argv sh + 3)) 0xFFFFFFFC in
      let count = if ltb 16384 wanted then 16384 else wanted in
      let (r, words, w) = p.swdp_ahb_read32 addr (count / 4) sh.world in
      let sh' = record sh { lastaddr = u32 (addr + count); lastcount = count; world = w } in
      let rows = word_rows (count / 4) addr (count / 4) words in
      if r == 0 then (0, record sh' { printed = sh'.printed ++ rows }) else (error, sh')
