-- ===== src/Agent/Command.antt =====
-- What a transaction asks of the firmware, apart from its words: a list of commands, how they are
-- laid out as words (include/protocol/rswdp.h, "Basic framing"), and what they do one by one.
use m3dev.Base.{
  ℕ, zero, suc, ◌+◌, ◌^◌, ◌<◌, Bool, true, false, List, [], ◌∷◌, ◌++◌, ◌==◌, if◌then◌else◌, length,
  replicate, ◌≡◌,
}
use m3dev.Protocol.{
  rswd_msg, cmd_null, cmd_swd_write, cmd_swd_read, cmd_swd_discard, cmd_attach, cmd_reset,
  cmd_execute, cmd_trace, cmd_bootloader, cmd_set_clock, cmd_swd_data,
}
use m3dev.Agent.Hardware.{Port, code_at, reboot_bootloader, gpio_cfg_in, gpio_cfg_out}
use m3dev.Agent.{Out, optable}

pub data Cmd : Type 0 where
  null attach bootloader : Cmd
  write : ℕ → List ℕ → Cmd
  read discard : ℕ → ℕ → Cmd
  reset execute trace set_clock : ℕ → Cmd

abbrev pub encode : Cmd → List ℕ
encode null = rswd_msg cmd_null 0 0 ∷ []
encode attach = rswd_msg cmd_attach 0 0 ∷ []
encode bootloader = rswd_msg cmd_bootloader 0 0 ∷ []
encode (write op vals) = rswd_msg cmd_swd_write op (length vals) ∷ vals
encode (read op n) = rswd_msg cmd_swd_read op n ∷ []
encode (discard op n) = rswd_msg cmd_swd_discard op n ∷ []
encode (reset n) = rswd_msg cmd_reset 0 n ∷ []
encode (execute addr) = rswd_msg cmd_execute 0 0 ∷ addr ∷ []
encode (trace op) = rswd_msg cmd_trace op 0 ∷ []
encode (set_clock khz) = rswd_msg cmd_set_clock 0 khz ∷ []

abbrev pub encode_all : List Cmd → List ℕ
encode_all [] = []
encode_all (c ∷ cs) = encode c ++ encode_all cs

-- The fields fit the header word.
abbrev pub Fits : Cmd → Type 0
Fits null = Unit {0}
Fits attach = Unit {0}
Fits bootloader = Unit {0}
Fits (write op vals) = (op < 2 ^ 8) × (length vals < 2 ^ 16)
Fits (read op n) = (op < 2 ^ 8) × (n < 2 ^ 16)
Fits (discard op n) = (op < 2 ^ 8) × (n < 2 ^ 16)
Fits (reset n) = n < 2 ^ 16
Fits (execute addr) = Unit {0}
Fits (trace op) = op < 2 ^ 8
Fits (set_clock khz) = khz < 2 ^ 16

abbrev pub AllFit : List Cmd → Type 0
AllFit [] = Unit {0}
AllFit (c ∷ cs) = Fits c × AllFit cs

-- The words of data that the commands add to the reply, each read with its header.
abbrev pub reply_words_one : Cmd → ℕ
reply_words_one (read op n) = n + 1
reply_words_one _ = 0

abbrev pub reply_words : List Cmd → ℕ
reply_words [] = 0
reply_words (c ∷ cs) = reply_words_one c + reply_words cs

-- The words from index `pos` on are `ws`.
abbrev pub Holds : (ℕ → ℕ) → ℕ → List ℕ → Type 0
Holds rx pos [] = Unit {0}
Holds rx pos (x ∷ xs) = (rx pos ≡ x) × Holds rx (pos + 1) xs

module _ {W : Type 0} (port : Port W) where
  -- Writes until one fails. The Boolean is true for a failure.
  unfoldable pub do_writes : ℕ → List ℕ → W → Bool × W
  do_writes code [] w = (false, w)
  do_writes code (v ∷ vs) w =
      let (bad, w') = port.swdp_write code v w in
      let rest = do_writes code vs w' in if bad then (true, w') else rest

  -- The words of `n` reads, with 0xfefefefe in the place of those behind a failure.
  unfoldable pub do_reads : ℕ → ℕ → W → Bool × List ℕ × W
  do_reads code zero w = (false, [], w)
  do_reads code (suc n) w =
      let (bad, v, w') = port.swdp_read code w in
      let (bad', vs, w'') = do_reads code n w' in
      if bad then (true, v ∷ replicate n 0xfefefefe, w') else (bad', v ∷ vs, w'')

  -- One command. The Boolean is true if the transaction ends there.
  unfoldable pub exec_one : Cmd → Out W → Bool × Out W
  exec_one null o = (false, o)
  exec_one attach o = (false, record o { world = port.swdp_reset o.world })
  exec_one bootloader o = (false, record o { func = reboot_bootloader })
  exec_one (write op vals) o =
      let (bad, w) = do_writes (optable port op) vals o.world in
      (bad, record o { status = if bad then 3 else o.status; world = w })
  exec_one (read op n) o =
      let (bad, vs, w) = do_reads (optable port op) n o.world in
      (
        bad,
        record o {
          tx = (o.tx ++ (rswd_msg cmd_swd_data 0 n ∷ [])) ++ vs;
          status = if bad then 3 else o.status;
          world = w;
        },
      )
  exec_one (discard op n) o =
      let (bad, vs, w) = do_reads (optable port op) n o.world in
      (bad, record o { status = if bad then 3 else o.status; world = w })
  exec_one (reset n) o = (
    false,
    record o {
      world =
          if n == 0
          then port.gpio_cfg_dir gpio_cfg_in o.world
          else port.gpio_clr (port.gpio_cfg_dir gpio_cfg_out o.world);
    },
  )
  exec_one (execute addr) o = (false, record o { func = code_at addr })
  exec_one (trace op) o = (false, record o { swdp_trace = op })
  exec_one (set_clock khz) o =
      let (khz', w) = port.ssp0_set_clock khz o.world in
      (false, record o { world = port.printu_clock khz' w })

  -- The commands in order, each counted, up to the first that fails.
  unfoldable pub exec : List Cmd → Out W → Out W
  exec [] o = o
  exec (c ∷ cs) o =
      let (stop, o') = exec_one c (record o { count = o.count + 1 }) in
      let rest = exec cs o' in if stop then o' else rest
