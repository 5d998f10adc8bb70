-- ===== src/Commands/Flash.antt =====
-- Running a flash agent on the target: `invoke`, `run_flash_agent` and its commands, of
-- tools/debugger-commands.c. An image is its bytes; the operating system reads files and agents,
-- `load_file` and `load_agent`.
pub mod Agent
pub mod Chunk
pub mod Image
mod Tests
use m3dev.Base.{
  ℕ, zero, suc, ◌+◌, ◌-◌, ◌*◌, ◌/◌, ◌%◌, Bool, List, [], ◌∷◌, ◌++◌, Option, none, some, not, ◌&&◌,
  ◌||◌, ◌>>=◌, ◌==◌, ltb, if◌then◌else◌, get_or, take, drop, set, length, bit_and, bit_or, u32,
  sub_u32, ascii, same_text, replicate,
}
use m3dev.Debugger.{Param, error, no_param}
use m3dev.Gdb.Memory.{words}
use m3dev.Commands.{Probe, Shell, run, return, aircr, do_attach}
use m3dev.Commands.Control.{do_reset_stop}

abbrev pub agent_magic : ℕ
agent_magic = 0x42776166

abbrev pub agent_version : ℕ
agent_version = 0x00010000

abbrev pub flag_boot_rom_hack : ℕ
flag_boot_rom_hack = 1

-- The fields of `flash_agent` that the host uses.
pub record FlashAgent : Type 0 where
  pub load_addr : ℕ
  pub data_addr : ℕ
  pub data_size : ℕ
  pub flash_addr : ℕ
  pub flash_size : ℕ
  pub setup : ℕ
  pub erase : ℕ
  pub write : ℕ

-- `sizeof(flash_agent)` is 64: sixteen words.
abbrev pub agent_of : List ℕ → FlashAgent
agent_of ws = record {
  load_addr = get_or ws 3 0;
  data_addr = get_or ws 4 0;
  data_size = get_or ws 5 0;
  flash_addr = get_or ws 6 0;
  flash_size = get_or ws 7 0;
  setup = get_or ws 12 0;
  erase = get_or ws 13 0;
  write = get_or ws 14 0;
}

-- The bytes of a file, up to a whole word; behind the file is what `malloc` left there, `slack`.
abbrev pub padded_file : List ℕ → List ℕ → List ℕ
padded_file slack file = file ++ take ((length file + 3) / 4 * 4 - length file) slack

module _ {W : Type 0} (p : Probe W) where
  abbrev pub set_register : ℕ → ℕ → W → W
  set_register n v w = (p.swdp_core_write n v w).1

  -- `invoke` up to `swdp_core_resume`.
  unfoldable pub set_up_call : ℕ → ℕ → ℕ → ℕ → ℕ → ℕ → W → W
  set_up_call agent func r0 r1 r2 r3 w =
      let w1 = set_register 3 r3 (set_register 2 r2 (set_register 1 r1 (set_register 0 r0 w))) in
      let w2 = set_register 14 (bit_or agent 1) (set_register 13 (sub_u32 agent 4) w1) in
      let w3 = set_register 15 (bit_or func 1) w2 in
      set_register 16 0x01000000 (p.swdp_ahb_write aircr 0x05fa0002 w3).1

  abbrev pub resume_and_wait : W → ℕ × W
  resume_and_wait w = p.swdp_core_wait_for_halt (p.swdp_core_resume w).1

  unfoldable pub invoke : ℕ → ℕ → ℕ → ℕ → ℕ → ℕ → W → ℕ × W
  invoke agent func r0 r1 r2 r3 w =
      let (r, w1) = resume_and_wait (set_up_call agent func r0 r1 r2 r3 w) in
      let (ra, res, w2) = p.swdp_core_read 0 0xffffffff w1 in
      let (rb, pc, w3) = p.swdp_core_read 15 0xffffffff w2 in
      if r == 0 then (if not (pc == agent) then (error, w3) else (res, w3)) else (error, w1)

  -- The loop that sends and writes the image, on fuel.
  unfoldable pub write_chunks : ℕ → FlashAgent → ℕ → List ℕ → W → Option (ℕ × W)
  write_chunks zero agent flashaddr image w = none
  write_chunks (suc fuel) agent flashaddr image w =
      let xfer = if ltb agent.data_size (length image) then agent.data_size else length image in
      let (r, w1) = p.swdp_ahb_write32 agent.data_addr (words (xfer / 4) image) w in
      let (r', w2) = invoke agent.load_addr agent.write flashaddr agent.data_addr xfer 0 w1 in
      let rest = write_chunks fuel agent (u32 (flashaddr + xfer)) (drop xfer image) w2 in
      if length image == 0
      then some (0, w)
      else if not (r == 0)
      then some (error, w1)
      else if not (r' == 0)
      then some (error, w2)
      else rest

  -- The checks of the range; the sum of the agent's two words wraps, and `flashaddr + data_sz` is a
  -- size_t, which does not.
  abbrev pub in_range : FlashAgent → ℕ → ℕ → Bool
  in_range agent flashaddr size = not (
      ltb flashaddr agent.flash_addr
      || ltb agent.flash_size size
      || ltb (u32 (agent.flash_addr + agent.flash_size)) (flashaddr + size))

  -- From the check of the range on, with an image to write.
  unfoldable pub program : ℕ → FlashAgent → ℕ → List ℕ → W → Option (ℕ × W)
  program fuel agent flashaddr image w =
      let (r, w1) = invoke agent.load_addr agent.erase flashaddr (length image) 0 0 w in
      let written = write_chunks fuel agent flashaddr image w1 in
      if not (in_range agent flashaddr (length image))
      then some (error, w)
      else if not (r == 0)
      then some (error, w1)
      else written

  -- And with none: `size` bytes are erased, or all for an address 0 and a size of 0xFFFFFFFF.
  unfoldable pub erase_range : FlashAgent → ℕ → ℕ → W → ℕ × W
  erase_range agent flashaddr size w =
      let all = flashaddr == 0 && size == 0xFFFFFFFF in
      let addr = if all then agent.flash_addr else flashaddr in
      let bytes = if all then agent.flash_size else size in
      let (r, w1) = invoke agent.load_addr agent.erase addr bytes 0 0 w in
      if not (in_range agent addr bytes)
      then (error, w)
      else if not (r == 0)
      then (error, w1)
      else (0, w1)

  -- FLAG_BOOT_ROM_HACK: what `run_flash_agent` does to run the boot ROM.
  unfoldable pub boot_rom : W → ℕ × W
  boot_rom w =
      let (r, w1) = p.swdp_watchpoint_rw 0 0 w in
      let w2 = (resume_and_wait w1).1 in
      if not (r == 0) then (error, w1) else (0, (p.swdp_watchpoint_disable 0 w2).1)

  -- The first part of `run_flash_agent`, up to the agent's fields as its `setup` left them. The image
  -- of the agent is its size in bytes and its words.
  unfoldable pub start_agent : ℕ → List ℕ → Shell W → ℕ × FlashAgent × Shell W
  unfolding boot_rom set_up_call invoke do_reset_stop
  start_agent size image sh =
      let agent = agent_of image in
      let invalid =
        ltb size 64
        || not (get_or image 0 0 == agent_magic)
        || not (get_or image 1 0 == agent_version) in
      let (r1, sh1) = do_attach p sh in
      let sh2 = (do_reset_stop p sh1).1 in
      let no_hack = bit_and (get_or image 2 0) flag_boot_rom_hack == 0 in
      let (r3, w3) = if no_hack then (0, sh2.world) else boot_rom sh2.world in
      let (r4, w4) =
        p.swdp_ahb_write32 agent.load_addr (take (size / 4) (set image 0 0xbe00be00)) w3 in
      let (r5, w5) = invoke agent.load_addr agent.setup 0 0 0 0 w4 in
      let (r6, fields, w6) = p.swdp_ahb_read32 (u32 (agent.load_addr + 16)) 4 w5 in
      let agent' = record agent {
        data_addr = get_or fields 0 0;
        data_size = get_or fields 1 0;
        flash_addr = get_or fields 2 0;
        flash_size = get_or fields 3 0;
      } in
      if invalid
      then (error, agent, sh)
      else if not (r1 == 0)
      then (error, agent, sh1)
      else if not (r3 == 0)
      then (error, agent, record sh2 { world = w3 })
      else if not (r4 == 0)
      then (error, agent, record sh2 { world = w4 })
      else if not (r5 == 0)
      then (error, agent, record sh2 { world = w5 })
      else if not (r6 == 0)
      then (error, agent, record sh2 { world = w6 })
      else (0, agent', record sh2 { world = w6 })

  -- `run_flash_agent` with an image, once the agent is read.
  unfoldable pub write_loaded :
      Option (ℕ × List ℕ) → ℕ → ℕ → List ℕ → Shell W → Option (ℕ × Shell W)
  write_loaded none fuel flashaddr image sh = some (error, sh)
  write_loaded (some (size, agent_words)) fuel flashaddr image sh =
      let (r, agent, sh1) = start_agent size agent_words sh in
      let rest : Option (ℕ × Shell W) = (do
        (r', w) ← program fuel agent flashaddr image sh1.world
        some (r', record sh1 { world = w })) in
      if not (r == 0) then some (error, sh1) else rest

  -- And with none but a size.
  unfoldable pub erase_loaded : Option (ℕ × List ℕ) → ℕ → ℕ → Shell W → ℕ × Shell W
  erase_loaded none flashaddr size sh = (error, sh)
  erase_loaded (some (agent_size, agent_words)) flashaddr size sh =
      let (r, agent, sh1) = start_agent agent_size agent_words sh in
      let (r', w) = erase_range agent flashaddr size sh1.world in
      if not (r == 0) then (error, sh1) else (r', record sh1 { world = w })

  module _ (load_agent : Option (List ℕ) → Option (ℕ × List ℕ)) where
    abbrev pub flash_image : ℕ → ℕ → List ℕ → Shell W → Option (ℕ × Shell W)
    flash_image fuel flashaddr image sh =
        write_loaded (load_agent sh.agent_arch) fuel flashaddr image sh

    abbrev pub erase_flash : ℕ → ℕ → Shell W → ℕ × Shell W
    erase_flash flashaddr size sh = erase_loaded (load_agent sh.agent_arch) flashaddr size sh

    unfoldable pub do_flash :
        (List ℕ → Option (List ℕ)) → List ℕ → ℕ → List Param → Shell W → Option (ℕ × Shell W)
    unfolding write_loaded program start_agent
    do_flash load_file slack fuel argv sh =
        let target = (get_or argv 1 no_param).n in
        let flashed : Option (ℕ × Shell W) = elim (load_file (get_or argv 0 no_param).s) [
          | none ↦ some (error, sh)
          | some file ↦ flash_image fuel target (padded_file slack file) sh
        ] in
        if not (length argv == 2) then some (error, sh) else flashed

    unfoldable pub do_erase : List Param → Shell W → ℕ × Shell W
    unfolding erase_loaded erase_range start_agent
    do_erase argv sh =
        let whole = erase_flash 0 0xFFFFFFFF sh in
        let part = erase_flash (get_or argv 0 no_param).n (get_or argv 1 no_param).n sh in
        if length argv == 1 && same_text (get_or argv 0 no_param).s (ascii "all")
        then whole
        else if not (length argv == 2)
        then (error, sh)
        else part
