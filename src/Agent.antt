-- ===== src/Agent.antt =====
-- The firmware's transaction interpreter, `process_txn` of m3debug/main.c (built without
-- CONFIG_M3DEBUG_TRACE). The received words are a function of the index, which also says what
-- memory holds behind them. `rxc` is an int that is only counted down and tested by `rxc > 0`, so
-- that a count which would be negative is 0 here. The words `tx[0..txc)` are a list.
pub mod Hardware
pub mod Command
pub mod Loops
pub mod Main
pub mod Refine
pub mod Frame
pub mod Hang
mod Tests
use m3dev.Base.{
  ℕ, zero, suc, ◌+◌, ◌-◌, Bool, true, false, List, [], ◌∷◌, ◌++◌, Option, none, some, ◌==◌,
  if◌then◌else◌, ltb, length, get_or, replicate, u32, bit_and,
}
use m3dev.Protocol.{
  rswd_msg, rswd_msg_cmd, rswd_msg_op, rswd_msg_arg, cmd_null, cmd_swd_write, cmd_swd_read,
  cmd_swd_discard, cmd_attach, cmd_reset, cmd_download, cmd_execute, cmd_trace, cmd_bootloader,
  cmd_set_clock, cmd_status, cmd_swd_data,
}
use Hardware.{Port, Func, no_func, code_at, reboot_bootloader, gpio_cfg_in, gpio_cfg_out}

-- The codes RD_IDCODE, WR_ABORT, RD_AP0, … of m3debug/swdp.h, by direction, port and register.
abbrev pub optable_entries : List ℕ
optable_entries =
    0xA5 ∷ 0x81 ∷ 0xE1 ∷ 0xC5 ∷ 0xB1 ∷ 0x95 ∷ 0xF5 ∷ 0xD1 ∷ 0xA9 ∷ 0x8D ∷ 0xED ∷ 0xC9 ∷ 0xBD ∷ 0x99
    ∷ 0xF9 ∷ 0xDD ∷ []

-- The variables that live on after the loop of `process_txn`, with `swdp_trace` and the state of
-- the port.
pub record Out (W : Type 0) : Type 0 where
  pub tx : List ℕ
  pub count : ℕ
  pub status : ℕ
  pub func : Func
  pub swdp_trace : ℕ
  pub world : W

-- How a case of the switch ends: `continue` with the read pointer and `rxc`, `goto done`, or in a
-- copy loop whose fuel ran out.
pub data Next (W : Type 0) : Type 0 where
  continue : ℕ → ℕ → Out W → Next W
  done : Out W → Next W
  stuck : Next W

-- What is transmitted, and what `process_txn` goes on with.
pub record Reply (W : Type 0) : Type 0 where
  pub sent : List ℕ
  pub func : Func
  pub swdp_trace : ℕ
  pub world : W

-- The words of `txbuffer` and of `rxbuffer`.
abbrev pub txbuffer_words : ℕ
txbuffer_words = 513

abbrev pub rxbuffer_words : ℕ
rxbuffer_words = 512

-- What becomes of a frame. `overrun`: more words were written than `txbuffer` has, which the code does
-- not check and C leaves undefined.
pub data Turn (W : Type 0) : Type 0 where
  replied : Reply W → Turn W
  overrun dropped : Turn W

abbrev pub within_txbuffer : {W : Type 0} → Reply W → Turn W
within_txbuffer r = if ltb txbuffer_words (length r.sent) then overrun else replied r

abbrev pub start : {W : Type 0} → ℕ → ℕ → W → Out W
start txnid trace w = record {
  tx = txnid ∷ [];
  count = 0;
  status = 0;
  func = no_func;
  swdp_trace = trace;
  world = w;
}

module _ {W : Type 0} (port : Port W) where
  unfoldable pub optable : ℕ → ℕ
  optable op = if ltb op 16 then get_or optable_entries op 0 else port.past_optable op

  module _ (rx : ℕ → ℕ) where
    -- CMD_SWD_WRITE: `n` words of payload.
    unfoldable pub write_words : ℕ → ℕ → ℕ → ℕ → Out W → Next W
    write_words op zero pos rxc o = continue pos rxc o
    write_words op (suc n) pos rxc o =
        let (bad, w) = port.swdp_write (optable op) (rx pos) o.world in
        let rest = write_words op n (pos + 1) (rxc - 1) (record o { world = w }) in
        if bad then done (record o { status = 3; world = w }) else rest

    -- CMD_SWD_READ: one reply word for each of `n` reads; after a failure the rest is filled up.
    unfoldable pub read_words : ℕ → ℕ → ℕ → ℕ → Out W → Next W
    read_words op zero pos rxc o = continue pos rxc o
    read_words op (suc n) pos rxc o =
        let (bad, v, w) = port.swdp_read (optable op) o.world in
        let tx' = o.tx ++ (v ∷ []) in
        let rest = read_words op n pos rxc (record o { tx = tx'; world = w }) in
        if bad
        then done (record o { tx = tx' ++ replicate n 0xfefefefe; status = 3; world = w })
        else rest

    -- CMD_SWD_DISCARD
    unfoldable pub discard_words : ℕ → ℕ → ℕ → ℕ → Out W → Next W
    discard_words op zero pos rxc o = continue pos rxc o
    discard_words op (suc n) pos rxc o =
        let (bad, v, w) = port.swdp_read (optable op) o.world in
        let rest = discard_words op n pos rxc (record o { world = w }) in
        if bad then done (record o { status = 3; world = w }) else rest

    -- CMD_DOWNLOAD: the loop `while (n)` copies words, and does not change `n`.
    unfoldable pub download_words : ℕ → ℕ → ℕ → ℕ → ℕ → Out W → Next W
    download_words zero n addr pos rxc o = stuck
    download_words (suc fuel) n addr pos rxc o =
        let o' = record o { world = port.store addr (rx pos) o.world } in
        let rest = download_words fuel n (u32 (addr + 4)) (pos + 1) (rxc - 1) o' in
        if n == 0 then continue pos rxc o else rest

    -- One round of the loop, behind `msg = *rx++`: the switch.
    unfoldable pub process_msg : ℕ → ℕ → ℕ → ℕ → ℕ → ℕ → Out W → Next W
    process_msg fuel cmd op n pos rxc o =
        if cmd == cmd_null
        then continue pos rxc o
        else if cmd == cmd_swd_write
        then write_words op n pos rxc o
        else if cmd == cmd_swd_read
        then read_words op n pos rxc (record o { tx = o.tx ++ (rswd_msg cmd_swd_data 0 n ∷ []) })
        else if cmd == cmd_swd_discard
        then discard_words op n pos rxc o
        else if cmd == cmd_attach
        then continue pos rxc (record o { world = port.swdp_reset o.world })
        else if cmd == cmd_reset
        then continue pos rxc (record o {
          world =
              if n == 0
              then port.gpio_cfg_dir gpio_cfg_in o.world
              else port.gpio_clr (port.gpio_cfg_dir gpio_cfg_out o.world);
        })
        else if cmd == cmd_download
        then download_words fuel n (rx pos) (pos + 1) (rxc - 1) o
        else if cmd == cmd_execute
        then continue (pos + 1) (rxc - 1) (record o { func = code_at (rx pos) })
        else if cmd == cmd_trace
        then continue pos rxc (record o { swdp_trace = op })
        else if cmd == cmd_bootloader
        then continue pos rxc (record o { func = reboot_bootloader })
        else if cmd == cmd_set_clock
        then (let (khz, w) = port.ssp0_set_clock n o.world in
            continue pos rxc (record o { world = port.printu_clock khz w }))
        else done (record o { status = 1; world = port.printx_unknown cmd o.world })

    -- `while (rxc-- > 0)`; `none` means that the fuel ran out.
    unfoldable pub process_loop : ℕ → ℕ → ℕ → Out W → Option (Out W)
    process_loop zero pos rxc o = none
    process_loop (suc fuel) pos rxc o =
        let msg = rx pos in
        let next =
          process_msg fuel (rswd_msg_cmd msg) (rswd_msg_op msg) (rswd_msg_arg msg) (pos + 1)
            (rxc - 1) (record o { count = o.count + 1 }) in
        let rest : Option (Out W) = elim next [
          | continue pos' rxc' o' ↦ process_loop fuel pos' rxc' o'
          | done o' ↦ some o'
          | stuck ↦ none
        ] in
        if rxc == 0 then some o else rest

  -- From the label `done` on: the status word, and a padding word where the reply would fill its
  -- last USB packet.
  unfoldable pub finish : Out W → Reply W
  finish o =
      let tx = o.tx ++ (rswd_msg cmd_status o.status o.count ∷ []) in
      let sent = if bit_and (length tx) 0xf == 0 then tx ++ (rswd_msg cmd_null 0 0 ∷ []) else tx in
      record {
        sent = sent;
        func = o.func;
        swdp_trace = o.swdp_trace;
        world = port.usb_xmit sent o.world;
      }

  unfoldable pub process_txn : ℕ → ℕ → (ℕ → ℕ) → ℕ → ℕ → W → Option (Turn W)
  process_txn fuel txnid rx rxc trace w = elim (process_loop rx fuel 0 rxc (start txnid trace w)) [
    | none ↦ none
    | some o ↦ some (within_txbuffer (finish o))
  ]
