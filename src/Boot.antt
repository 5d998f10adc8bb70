-- ===== src/Boot.antt =====
-- The boot loader, lpc13boot/main.c: the commands of `handle`, and `main`. What it calls of the ROM,
-- the USB driver and the board is a record of operations over a state of the hardware.
pub mod Flash
mod Tests
use m3dev.Base.{
  ℕ, zero, suc, ◌+◌, ◌-◌, ◌*◌, List, [], ◌∷◌, ◌++◌, Option, none, some, Bool, true, false, not,
  ◌&&◌, ◌||◌, ◌==◌, ltb, if◌then◌else◌, get_or, bit_and, bit_or, ◌>>>◌, u32, ascii, replicate, take,
}

abbrev pub ram_base : ℕ
ram_base = 0x10000000

abbrev pub ram_size : ℕ
ram_size = 7 * 1024

abbrev pub rom_base : ℕ
rom_base = 0x1000

abbrev pub rom_size : ℕ
rom_size = 28 * 1024

abbrev pub op_prepare : ℕ
op_prepare = 50

abbrev pub op_write : ℕ
op_write = 51

abbrev pub op_erase : ℕ
op_erase = 52

abbrev pub gpreg0 : ℕ
gpreg0 = 0x40038004

abbrev pub gpreg1 : ℕ
gpreg1 = 0x40038008

abbrev pub sys_clk_ctrl : ℕ
sys_clk_ctrl = 0x40048080

abbrev pub sys_clk_ct32b0 : ℕ
sys_clk_ct32b0 = 0x200

abbrev pub tm32b0tcr : ℕ
tm32b0tcr = 0x40014004

abbrev pub tm32b0tc : ℕ
tm32b0tc = 0x40014008

abbrev pub tm32b0pr : ℕ
tm32b0pr = 0x4001400C

-- What the boot loader calls. `usb_recv` stores at the start of RAM. `usb_recv_timeout` gives the
-- length received and the words of `buf`, or `none` where the time passed.
pub record Board (H : Type 0) : Type 0 where
  pub romcall : List ℕ → H → H
  pub usb_xmit : List ℕ → H → H
  pub usb_recv : ℕ → H → H
  pub usb_recv_timeout : ℕ → H → Option (ℕ × List ℕ) × H
  pub usb_stop : H → H
  pub usb_init : H → H
  pub usb_online : H → Bool × H
  pub board_init : H → H
  pub board_debug_led : ℕ → H → H
  pub readl : ℕ → H → ℕ × H
  pub writel : ℕ → ℕ → H → H
  pub board_name : List ℕ

-- The code returns, or starts the image at an address, or reboots the processor.
pub data Outcome (H : Type 0) : Type 0 where
  returned : H → Outcome H
  started : ℕ → H → Outcome H
  rebooted : H → Outcome H

-- `struct device_info` as sent: two texts of 16 bytes, and the words little-endian.
abbrev pub le_bytes : ℕ → List ℕ
le_bytes x = bit_and x 0xFF ∷ bit_and (x >>> 8) 0xFF ∷ bit_and (x >>> 16) 0xFF ∷ (x >>> 24) ∷ []

abbrev pub le_words : List ℕ → List ℕ
le_words [] = []
le_words (x ∷ xs) = le_bytes x ++ le_words xs

unfoldable pub device : List ℕ → List ℕ
device board_name =
    take 16 (ascii "LPC1343" ++ replicate 16 0)
    ++ take 16 (board_name ++ replicate 16 0)
    ++ le_words (0x0001000 ∷ ram_base ∷ ram_size ∷ rom_base ∷ rom_size ∷ 0 ∷ 0 ∷ 0 ∷ [])

module _ {H : Type 0} (board : Board H) where
  unfoldable pub iap_erase_page : ℕ → H → H
  iap_erase_page addr h =
      let sector = bit_and (addr >>> 12) 0xF in
      board.romcall (op_erase ∷ sector ∷ sector ∷ 48000 ∷ [])
        (board.romcall (op_prepare ∷ sector ∷ sector ∷ []) h)

  unfoldable pub iap_write_page : ℕ → ℕ → H → H
  iap_write_page addr src h =
      let sector = bit_and (addr >>> 12) 0xF in
      board.romcall (op_write ∷ addr ∷ src ∷ 0x1000 ∷ 48000 ∷ [])
        (board.romcall (op_prepare ∷ sector ∷ sector ∷ []) h)

  -- The loop of the command `W`; `none` where the fuel runs out.
  unfoldable pub write_image : ℕ → ℕ → ℕ → H → Option H
  write_image zero addr arg h = none
  write_image (suc fuel) addr arg h =
      let xfer = if ltb 4096 arg then 4096 else arg in
      let h1 = iap_write_page addr ram_base (iap_erase_page addr (board.usb_recv xfer h)) in
      let rest = write_image fuel (u32 (addr + 4096)) (arg - xfer) h1 in
      if arg == 0 then some h else rest

  unfoldable pub boot_image : ℕ → H → Outcome H
  boot_image img h = started img (board.usb_stop (board.board_debug_led 0 h))

  -- `reply[0]` and `reply[1]`
  abbrev pub reply : ℕ → ℕ → H → H
  reply magic result = board.usb_xmit (le_words (magic ∷ result ∷ []))

  unfoldable pub reboot_command : ℕ → H → Outcome H
  reboot_command magic h = rebooted (board.usb_recv_timeout 10 (reply magic 0 h)).1

  unfoldable pub execute_image : ℕ → ℕ → H → Outcome H
  unfolding boot_image
  execute_image magic arg h =
      let h1 = reply magic 0 (board.usb_recv arg (reply magic 0 h)) in
      boot_image ram_base (board.usb_recv_timeout 10 h1).1

  -- The `switch` behind the check of the magic number. Seven pages are all that `W` writes.
  unfoldable pub run_command : ℕ → ℕ → ℕ → H → Option (Outcome H)
  unfolding execute_image reboot_command
  run_command magic cmd arg h =
      let failed = some (returned (reply magic 0xFFFFFFFF h)) in
      if cmd == b'E'
      then some (returned (reply magic 0 (iap_erase_page 0x1000 h)))
      else if cmd == b'W'
      then (if ltb rom_size arg
          then failed
          else elim (write_image 8 rom_base arg (reply magic 0 h)) [
            | none ↦ none
            | some h1 ↦ some (returned (reply magic 0 h1))
          ])
      else if cmd == b'X'
      then (if ltb ram_size arg then failed else some (execute_image magic arg h))
      else if cmd == b'Q'
      then some (returned (board.usb_xmit (device board.board_name) (reply magic 0 h)))
      else if cmd == b'A'
      then some
          (reboot_command magic (board.writel gpreg1 0xA5A50001 (board.writel gpreg0 0x12345678 h)))
      else if cmd == b'R'
      then some (reboot_command magic h)
      else failed

  unfoldable pub handle : ℕ → ℕ → ℕ → H → Option (Outcome H)
  handle magic cmd arg h =
      if not (magic == 0xDB00A5A5) then some (returned h) else run_command magic cmd arg h

  -- From the label `start_app` on.
  unfoldable pub start_app : H → Outcome H
  start_app h = rebooted (board.writel gpreg1 0xA5A50001 (board.writel gpreg0 0x12345678 h))

  -- The loop of `main` that serves commands, with `x` and `timeout`.
  unfoldable pub serve : ℕ → ℕ → ℕ → H → Option (Outcome H)
  unfolding start_app
  serve zero x timeout h = none
  serve (suc fuel) x timeout h =
      let (received, h1) = board.usb_recv_timeout 100 (board.board_debug_led (bit_and x 1) h) in
      elim received [
        | none ↦
            let again = serve fuel (x + 1) (timeout - 1) h1 in
            if timeout == 1 then some (start_app h1) else again
        | some packet ↦
            let ignored = serve fuel (x + 1) timeout h1 in
            let served : Option (Outcome H) =
              elim (handle (get_or packet.1 0 0) (get_or packet.1 1 0) (get_or packet.1 2 0) h1) [
                | none ↦ none
                | some outcome ↦ elim outcome [
                  | returned h2 ↦ serve fuel (x + 1) 0 h2
                  | started img h2 ↦ some (started img h2)
                  | rebooted h2 ↦ some (rebooted h2)
                ]
              ] in
            if packet.0 == 12 then served else ignored
      ]

  -- `while (!usb_online() && (readl(TM32B0TC) < 2000000)) ;`
  unfoldable pub wait_online : ℕ → H → Option H
  wait_online zero h = none
  wait_online (suc fuel) h =
      let (online, h1) = board.usb_online h in
      let (time, h2) = board.readl tm32b0tc h1 in
      let more = wait_online fuel h2 in
      if online then some h1 else if ltb time 2000000 then more else some h2

  -- `timeout`, from the first word of the image in flash and the two registers.
  unfoldable pub first_timeout : ℕ → ℕ → ℕ → ℕ
  first_timeout image gpr0 gpr1 =
      if gpr0 == 0x12345678 && gpr1 == 0xA5A50000
      then 0
      else if not (image == 0) && not (image == 0xFFFFFFFF)
      then 30
      else 0

  -- From `if (timeout)` on.
  unfoldable pub wait_and_serve : ℕ → ℕ → H → Option (Outcome H)
  unfolding start_app
  wait_and_serve fuel timeout h =
      let (clocks, h1) = board.readl sys_clk_ctrl h in
      let h2 =
        board.writel tm32b0tcr 1 (
          board.writel tm32b0pr 48 (board.writel sys_clk_ctrl (bit_or clocks sys_clk_ct32b0) h1)) in
      if timeout == 0 then serve fuel 0 timeout h else elim (wait_online fuel h2) [
        | none ↦ none
        | some h3 ↦
            let (clocks', h4) = board.readl sys_clk_ctrl h3 in
            let (online, h5) =
              board.usb_online (board.writel sys_clk_ctrl (bit_and clocks' 0xFFFFFDFF) h4) in
            if online then serve fuel 0 timeout h5 else some (start_app h5)
      ]

  unfoldable pub main : ℕ → H → Option (Outcome H)
  unfolding first_timeout
  main fuel h =
      let (gpr0, h1) = board.readl gpreg0 h in
      let (gpr1, h2) = board.readl gpreg1 h1 in
      let h3 = board.writel gpreg1 0xBBBBBBBB (board.writel gpreg0 0xBBBBBBBB h2) in
      let (image, h4) = board.readl 0x1000 (board.usb_init (board.board_init h3)) in
      if gpr0 == 0x12345678 && gpr1 == 0xA5A50001
      then some (started 0x1000 h3)
      else wait_and_serve fuel (first_timeout image gpr0 gpr1) h4
