-- ===== src/Commands/Control.antt =====
-- The commands of tools/debugger-commands.c that reset the target, set watchpoints and talk to a
-- program on it.
use m3dev.Base.{
  ℕ, zero, suc, ◌+◌, ◌*◌, List, [], ◌∷◌, ◌++◌, not, ◌&&◌, ◌==◌, ltb, if◌then◌else◌, get_or, take,
  bit_and, bit_or, u32, length, ascii, same_text, replicate, set, u8, ◌>>>◌,
}
use m3dev.Debugger.{Param, error, no_param}
use m3dev.Protocol.{ahb_csw}
use m3dev.Host.Single.{demcr}
use m3dev.Commands.{
  Probe, Shell, run, return, do_stop, byte_rows, aircr, demcr_trcena, demcr_vc_corereset,
  demcr_mon_pend, dcrdr,
}

-- AHB_CSW_MDEBUG | AHB_CSW_PRIV | AHB_CSW_DBG_EN with AHB_CSW_8BIT and with AHB_CSW_32BIT
abbrev pub csw_bytes : ℕ
csw_bytes = 0x22000040

abbrev pub csw_words : ℕ
csw_words = 0x22000042

abbrev pub bytes_of : List ℕ → List ℕ
bytes_of [] = []
bytes_of (x ∷ xs) = u8 x ∷ u8 (x >>> 8) ∷ u8 (x >>> 16) ∷ u8 (x >>> 24) ∷ bytes_of xs

-- What `do_text` prints of bytes: up to the first 0, with a dot for what is no printing character.
unfoldable pub shown_text : List ℕ → List ℕ
shown_text [] = []
shown_text (x ∷ xs) =
    let c = if not (ltb x 32) && ltb x 128 then x else if x == 10 then x else b'.' in
    if x == 0 then [] else c ∷ shown_text xs

module _ {W : Type 0} (p : Probe W) where
  -- The bytes that `do_db` reads, from byte `n` on, `left` of them; a failure ends the loop.
  unfoldable pub read_lanes : ℕ → ℕ → ℕ → List ℕ → W → List ℕ × W
  read_lanes zero n addr bytes w = (bytes, w)
  read_lanes (suc left) n addr bytes w =
      let (r, tmp, w') = p.swdp_ahb_read (u32 (addr + n)) 0 w in
      let rest = read_lanes left (n + 1) addr (set bytes n (u8 (tmp >>> (8 * bit_and n 3)))) w' in
      if not (r == 0) then (bytes, (p.swdp_reset w').1) else rest

  unfoldable pub do_db : List Param → Shell W → ℕ × Shell W
  unfolding read_lanes byte_rows
  do_db [] sh = (error, sh)
  do_db (a ∷ []) sh = (error, sh)
  do_db (a ∷ b ∷ argv) sh =
      let count = if ltb 1024 b.n then 1024 else b.n in
      let sh1 = run (p.swdp_ahb_write ahb_csw csw_bytes) sh in
      let (bytes, w) = read_lanes count 0 a.n (replicate 1024 0xee) sh1.world in
      let sh2 = run (p.swdp_ahb_write ahb_csw csw_words) (record sh1 { world = w }) in
      (0, record sh2 { printed = sh2.printed ++ byte_rows count a.n count bytes })

  unfoldable pub do_text : List Param → Shell W → ℕ × Shell W
  unfolding shown_text
  do_text [] sh = (error, sh)
  do_text (a ∷ argv) sh =
      let (r, ws, w) = p.swdp_ahb_read32 a.n 256 sh.world in
      let sh' = record sh { world = w } in
      let text = shown_text (take 1023 (bytes_of ws)) in
      if r == 0
      then (0, record sh' { printed = sh'.printed ++ ((a.n, text) ∷ []) })
      else (error, sh')

  unfoldable pub do_reset : Shell W → ℕ × Shell W
  do_reset sh =
      let caught = bit_or demcr_trcena sh.vcflags in
      let sh1 = run p.swdp_core_halt sh in
      let sh2 = run (p.swdp_ahb_write demcr caught) sh1 in
      let sh3 = run (p.swdp_ahb_write aircr 0x05fa0005) sh2 in
      (0, run (p.swdp_ahb_write demcr caught) sh3)

  -- Without its delays.
  unfoldable pub do_reset_hw : Shell W → ℕ × Shell W
  do_reset_hw sh = (0, run (p.swdp_target_reset 0) (run (p.swdp_target_reset 1) sh))

  unfoldable pub do_reset_stop : Shell W → ℕ × Shell W
  unfolding do_stop
  do_reset_stop sh =
      let sh1 = run p.swdp_core_halt sh in
      let stop_at_reset = bit_or (bit_or demcr_vc_corereset demcr_trcena) sh.vcflags in
      let sh2 = run (p.swdp_ahb_write demcr stop_at_reset) sh1 in
      let sh3 = run (p.swdp_ahb_write aircr 0x05fa0005) sh2 in
      let sh4 = (do_stop p sh3).1 in
      (0, run (p.swdp_ahb_write demcr (bit_or demcr_trcena sh.vcflags)) sh4)

  unfoldable pub do_watch_pc : List Param → Shell W → ℕ × Shell W
  do_watch_pc [] sh = (error, sh)
  do_watch_pc (a ∷ argv) sh = return (p.swdp_watchpoint_pc 0 a.n) sh

  unfoldable pub do_watch_rw : List Param → Shell W → ℕ × Shell W
  do_watch_rw [] sh = (error, sh)
  do_watch_rw (a ∷ argv) sh = return (p.swdp_watchpoint_rw 0 a.n) sh

  abbrev pub do_watch_off : Shell W → ℕ × Shell W
  do_watch_off = return (p.swdp_watchpoint_disable 0)

  abbrev pub do_bootloader : Shell W → ℕ × Shell W
  do_bootloader = return p.swdp_bootloader

  unfoldable pub do_setclock : List Param → Shell W → ℕ × Shell W
  do_setclock [] sh = (error, sh)
  do_setclock (a ∷ argv) sh = return (p.swdp_set_clock a.n) sh

  unfoldable pub do_swoclock : List Param → Shell W → ℕ × Shell W
  do_swoclock [] sh = (error, sh)
  do_swoclock (a ∷ argv) sh = return (p.swo_set_clock a.n) sh

  unfoldable pub do_maskints : List Param → Shell W → ℕ × Shell W
  do_maskints argv sh =
      let word = (get_or argv 0 no_param).s in
      if not (length argv == 1)
      then (error, sh)
      else if same_text word (ascii "on")
      then (0, record sh { swdp_step_no_ints = 1 })
      else if same_text word (ascii "always")
      then (0, record sh { swdp_step_no_ints = 2 })
      else (0, record sh { swdp_step_no_ints = 0 })

  -- The loop of `remote_msg`, with `timeout` rounds left.
  unfoldable pub wait_taken : ℕ → ℕ → W → ℕ × W
  wait_taken zero n w = (error, w)
  wait_taken (suc timeout) n w =
      let (r, n', w') = p.swdp_ahb_read dcrdr n w in
      let rest = wait_taken timeout n' w' in
      if not (r == 0) then (error, w') else if bit_and n' 0x80000000 == 0 then (0, w') else rest

  unfoldable pub remote_msg : ℕ → W → ℕ × W
  remote_msg cmd w =
      let (r1, w1) = p.swdp_ahb_write dcrdr cmd w in
      let (r2, n, w2) = p.swdp_ahb_read demcr 0 w1 in
      let (r3, w3) = p.swdp_ahb_write demcr (bit_or n demcr_mon_pend) w2 in
      if not (r1 == 0)
      then (error, w1)
      else if not (r2 == 0)
      then (error, w2)
      else if not (r3 == 0)
      then (error, w3)
      else wait_taken 250 n w3

  -- A character above 127, which a plain char may hold as a negative number, is left out.
  unfoldable pub send_line : List ℕ → W → ℕ × W
  send_line [] w = (0, w)
  send_line (c ∷ cs) w =
      let (r, w') = remote_msg (bit_or 0x80000000 c) w in
      let rest = send_line cs w' in if not (r == 0) then (error, w') else rest

  unfoldable pub do_wconsole : List Param → Shell W → ℕ × Shell W
  unfolding send_line
  do_wconsole argv sh =
      let (r, w) = send_line ((get_or argv 0 no_param).s ++ (13 ∷ [])) sh.world in
      if not (length argv == 1) then (error, sh) else (r, record sh { world = w })
