-- ===== src/Commands/Flash/Tests.antt =====
-- A small target with a flash agent, and an image written to it.
use m3dev.Base.{
  ℕ, ◌+◌, ◌-◌, List, [], ◌∷◌, Option, some, Bool, ◌==◌, ◌&&◌, leb, ltb, if◌then◌else◌, length,
  get_or, ◌/◌, ◌%◌, ◌*◌,
}
use m3dev.Gdb.Memory.Bytes.{byte_of}
use m3dev.Commands.{Probe, Shell}
use m3dev.Commands.Flash.{FlashAgent, start_agent}
use m3dev.Commands.Flash.Agent.{View}

-- Core registers and memory.
record Chip : Type 0 where
  reg : ℕ → ℕ
  mem : ℕ → ℕ

abbrev within : ℕ → ℕ → ℕ → Bool
within a n q = leb a q && ltb q (a + n)

-- Back at the agent's start, with the status 0.
abbrev returned : (ℕ → ℕ) → Chip → Chip
returned mem w = record {
  reg = λ m. if m == 0 then 0 else if m == 15 then 0x100 else w.reg m;
  mem = mem;
}

abbrev run_method : ℕ → Chip → Chip
run_method pc w =
    if pc == 0x151
    then returned (λ q. if within (w.reg 0) (w.reg 1) q then 0xFF else w.mem q) w
    else if pc == 0x161
    then returned
        (λ q. if within (w.reg 0) (w.reg 2) q then w.mem (w.reg 1 + (q - w.reg 0)) else w.mem q) w
    else returned w.mem w

abbrev chip : Probe Chip
chip = record {
  swdp_reset = λ w. (0, w);
  swdp_target_reset = λ n w. (0, w);
  swdp_bootloader = λ w. (0, w);
  swdp_set_clock = λ n w. (0, w);
  swo_set_clock = λ n w. (0, w);
  swdp_ahb_read = λ a old w. (0, 0, w);
  swdp_ahb_write = λ a v w. (0, w);
  swdp_ahb_read32 = λ a n w. (0, 0x200 ∷ 8 ∷ 0x1000 ∷ 0x100 ∷ [], w);
  swdp_ahb_write32 = λ a ws w. (
    0,
    record w {
      mem = λ q.
          if leb a q && ltb q (a + 4 * length ws)
          then byte_of (get_or ws ((q - a) / 4) 0) ((q - a) % 4)
          else w.mem q;
    },
  );
  swdp_core_read = λ n old w. (0, w.reg n, w);
  swdp_core_write = λ n v w. (0, record w { reg = λ m. if m == n then v else w.reg m });
  swdp_core_read_all = λ w. (0, [], w);
  swdp_core_halt = λ w. (0, w);
  swdp_core_step = λ w. (0, w);
  swdp_core_resume = λ w. (0, w);
  swdp_core_wait_for_halt = λ w. (0, run_method (w.reg 15) w);
  swdp_watchpoint_pc = λ n a w. (0, w);
  swdp_watchpoint_rw = λ n a w. (0, w);
  swdp_watchpoint_disable = λ n w. (0, w);
}

abbrev view : View Chip
view = record { reg = λ w. w.reg; mem = λ w. w.mem }

abbrev agent : FlashAgent
agent = record {
  load_addr = 0x100;
  data_addr = 0x200;
  data_size = 8;
  flash_addr = 0x1000;
  flash_size = 0x100;
  setup = 0x140;
  erase = 0x150;
  write = 0x160;
}

abbrev agent_words : List ℕ
agent_words =
    0x42776166 ∷ 0x00010000 ∷ 0 ∷ 0x100 ∷ 0 ∷ 0 ∷ 0 ∷ 0 ∷ 0 ∷ 0 ∷ 0 ∷ 0 ∷ 0x140 ∷ 0x150 ∷ 0x160 ∷ 0
    ∷ []

abbrev shell : Shell Chip
shell = record {
  lastregs = [];
  lastaddr = 0;
  lastcount = 0;
  vcflags = 0;
  agent_arch = some [];
  swdp_step_no_ints = 0;
  printed = [];
  world = record { reg = λ n. 0; mem = λ q. 0 };
}

abbrev image : List ℕ
image = 1 ∷ 2 ∷ 3 ∷ 4 ∷ 5 ∷ 6 ∷ 7 ∷ 8 ∷ 9 ∷ 10 ∷ 11 ∷ 12 ∷ []

abbrev load_agent : Option (List ℕ) → Option (ℕ × List ℕ)
load_agent arch = some (64, agent_words)

started : Shell Chip
unfolding start_agent
started = (start_agent chip 64 agent_words shell).2
