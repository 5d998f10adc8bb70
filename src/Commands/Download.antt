-- ===== src/Commands/Download.antt =====
-- `download` and `run` of a file, and the choice of the agent: tools/debugger-commands.c.
use m3dev.Base.{ℕ, ◌+◌, ◌/◌, List, Option, none, some, not, ◌==◌, if◌then◌else◌, get_or, length}
use m3dev.Debugger.{Param, error, no_param}
use m3dev.Gdb.Memory.{words}
use m3dev.Commands.{Probe, Shell, run, aircr}
use m3dev.Commands.Flash.{padded_file}

module _ {W : Type 0} where
  unfoldable pub do_setarch : List Param → Shell W → ℕ × Shell W
  do_setarch argv sh =
      if not (length argv == 1)
      then (error, sh)
      else (0, record sh { agent_arch = some (get_or argv 0 no_param).s })

module _ {W : Type 0} (p : Probe W) (load_file : List ℕ → Option (List ℕ)) (slack : List ℕ) where
  abbrev image_words : List ℕ → List ℕ
  image_words file = words ((length file + 3) / 4) (padded_file slack file)

  unfoldable pub do_download : List Param → Shell W → ℕ × Shell W
  do_download argv sh =
      let sent : ℕ × Shell W = elim (load_file (get_or argv 0 no_param).s) [
        | none ↦ (error, sh)
        | some file ↦
            let (r, w) =
              p.swdp_ahb_write32 (get_or argv 1 no_param).n (image_words file) sh.world in
            (if r == 0 then 0 else error, record sh { world = w })
      ] in
      if not (length argv == 2) then (error, sh) else sent

  -- The start of the program that `do_run` sends: its stack pointer and entry are its first words.
  unfoldable pub start_program : List ℕ → Shell W → Shell W
  start_program ws sh =
      let sh1 = run (p.swdp_core_write 13 (get_or ws 0 0)) sh in
      let sh2 = run (p.swdp_core_write 15 (get_or ws 1 0)) sh1 in
      let sh3 = run (p.swdp_ahb_write aircr 0x05fa0002) sh2 in
      run p.swdp_core_resume (run (p.swdp_core_write 16 0x01000000) sh3)

  unfoldable pub do_run : List Param → Shell W → ℕ × Shell W
  unfolding start_program
  do_run argv sh =
      let started : ℕ × Shell W = elim (load_file (get_or argv 0 no_param).s) [
        | none ↦ (error, sh)
        | some file ↦
            let sh1 = run p.swdp_core_halt sh in
            let ws = image_words file in
            let (r, w) = p.swdp_ahb_write32 (get_or argv 1 no_param).n ws sh1.world in
            let sh2 = record sh1 { world = w } in
            if r == 0 then (0, start_program ws sh2) else (error, sh2)
      ] in
      if not (length argv == 2) then (error, sh) else started
