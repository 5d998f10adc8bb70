-- ===== src/Commands/Flash/Agent.antt =====
-- `invoke` of tools/debugger-commands.c against the contract of include/agent/flash.h.
use m3dev.Base.{
  ℕ, ◌+◌, ◌-◌, ◌*◌, ◌/◌, ◌%◌, ◌^◌, ◌≤◌, ◌<◌, ◌≡◌, ◌∙◌, arith, List, ◌==◌, ◌&&◌, ltb, leb,
  if◌then◌else◌, length, get_or, bit_or, sub_u32, ◌⊎◌,
}
use m3dev.Gdb.Memory.Bytes.{byte_of}
use m3dev.Commands.{Probe, aircr}
use m3dev.Commands.Flash.{FlashAgent, set_register, set_up_call, resume_and_wait, invoke}

-- The target's core registers and its memory, by bytes.
pub record View (W : Type 0) : Type 0 where
  pub reg : W → ℕ → ℕ
  pub mem : W → ℕ → ℕ

abbrev pub flash_end : FlashAgent → ℕ
flash_end agent = agent.flash_addr + agent.flash_size

module _ {W : Type 0} (p : Probe W) (view : View W) where
  -- A halted target over a link that works, where blocks can be stored at the addresses `Stores`.
  pub record IsHalted (Stores : ℕ → Type 0) : Type 0 where
    pub core_write_reg :
        (n v : ℕ) (w : W) (m : ℕ)
        → view.reg (set_register p n v w) m ≡ (if m == n then v else view.reg w m)
    pub core_write_mem :
        (n v : ℕ) (w : W) (a : ℕ) → view.mem (set_register p n v w) a ≡ view.mem w a
    pub clear_reg :
        (w : W) (m : ℕ) → view.reg (p.swdp_ahb_write aircr 0x05fa0002 w).1 m ≡ view.reg w m
    pub clear_mem :
        (w : W) (a : ℕ) → view.mem (p.swdp_ahb_write aircr 0x05fa0002 w).1 a ≡ view.mem w a
    pub core_read_value : (n old : ℕ) (w : W) → (p.swdp_core_read n old w).1 ≡ view.reg w n
    pub core_read_reg :
        (n old : ℕ) (w : W) (m : ℕ) → view.reg (p.swdp_core_read n old w).2 m ≡ view.reg w m
    pub core_read_mem :
        (n old : ℕ) (w : W) (a : ℕ) → view.mem (p.swdp_core_read n old w).2 a ≡ view.mem w a
    pub store_result : (a : ℕ) (ws : List ℕ) (w : W) → Stores a → (p.swdp_ahb_write32 a ws w).0 ≡ 0
    pub store_mem :
        (a : ℕ) (ws : List ℕ) (w : W) (q : ℕ)
        → Stores a
        → view.mem (p.swdp_ahb_write32 a ws w).1 q ≡ (
            if leb a q && ltb q (a + 4 * length ws)
            then byte_of (get_or ws ((q - a) / 4) 0) ((q - a) % 4)
            else view.mem w q)

  module _ (agent : FlashAgent) where
    -- The calling convention: a method of the agent is about to run, with its first three arguments.
    pub record IsEntered (func r0 r1 r2 : ℕ) (w : W) : Type 0 where
      pub stack : view.reg w 13 ≡ sub_u32 agent.load_addr 4
      pub link : view.reg w 14 ≡ bit_or agent.load_addr 1
      pub method : view.reg w 15 ≡ bit_or func 1
      pub first : view.reg w 0 ≡ r0
      pub second : view.reg w 1 ≡ r1
      pub third : view.reg w 2 ≡ r2

    -- The method has returned to the breakpoint at the agent's start with the status 0.
    pub record HasReturned (result : ℕ × W) : Type 0 where
      pub halted : result.0 ≡ 0
      pub status : view.reg result.1 0 ≡ 0
      pub at_start : view.reg result.1 15 ≡ agent.load_addr

    -- The methods as include/agent/flash.h has them, for the addresses and lengths that the agent
    -- takes, of which some are only the starts of sectors or multiples of a page: `erase` sets the
    -- bytes of the range to 0xFF; `write` stores the bytes at an address in erased flash and may fill
    -- up behind them where they are not a whole buffer. Flash and buffer lie apart.
    pub record IsAgent (Erasable Writable : ℕ → ℕ → Type 0) : Type 0 where
      pub some_buffer : 0 < agent.data_size
      pub whole_words : agent.data_size % 4 ≡ 0
      pub fits : flash_end agent < 2 ^ 32
      pub apart :
          (agent.data_addr + agent.data_size ≤ agent.flash_addr)
          ⊎ (flash_end agent ≤ agent.data_addr)
      pub erases :
          (a n : ℕ) (w : W)
          → agent.flash_addr ≤ a
          → a + n ≤ flash_end agent
          → Erasable a n
          → IsEntered agent.erase a n 0 w
          → HasReturned (resume_and_wait p w)
            × ((q : ℕ) → a ≤ q → q < a + n → view.mem (resume_and_wait p w).1 q ≡ 0xFF)
      pub writes :
          (a n : ℕ) (w : W)
          → agent.flash_addr ≤ a
          → a + n ≤ flash_end agent
          → n ≤ agent.data_size
          → Writable a n
          → ((q : ℕ) → a ≤ q → q < a + n → view.mem w q ≡ 0xFF)
          → IsEntered agent.write a agent.data_addr n w
          → HasReturned (resume_and_wait p w)
            × ((i : ℕ)
                → i < n
                → view.mem (resume_and_wait p w).1 (a + i) ≡ view.mem w (agent.data_addr + i))
            × ((q : ℕ)
                → agent.flash_addr ≤ q
                → q < a
                → view.mem (resume_and_wait p w).1 q ≡ view.mem w q)
            × (n ≡ agent.data_size
                → (q : ℕ) → a + n ≤ q
                → q < flash_end agent
                → view.mem (resume_and_wait p w).1 q ≡ view.mem w q)

    module _ {Stores : ℕ → Type 0} (device : IsHalted Stores) (func r0 r1 r2 r3 : ℕ) (w : W) where
      abbrev pub called : W
      called = set_up_call p agent.load_addr func r0 r1 r2 r3 w

      pub set_up_call-IsEntered : IsEntered func r0 r1 r2 called
      unfolding set_up_call
      set_up_call-IsEntered = record {
        stack = simp (device.core_write_reg, device.clear_reg);
        link = simp (device.core_write_reg, device.clear_reg);
        method = simp (device.core_write_reg, device.clear_reg);
        first = simp (device.core_write_reg, device.clear_reg);
        second = simp (device.core_write_reg, device.clear_reg);
        third = simp (device.core_write_reg, device.clear_reg);
      }

      pub set_up_call-mem : (q : ℕ) → view.mem called q ≡ view.mem w q
      unfolding set_up_call
      set_up_call-mem q = simp (device.core_write_mem, device.clear_mem)

      -- A method that returns with the status 0 makes `invoke` give 0, and its memory stands.
      pub invoke-HasReturned :
          HasReturned (resume_and_wait p called)
          → (w' : W) × (invoke p agent.load_addr func r0 r1 r2 r3 w ≡ (0, w'))
            × ((q : ℕ) → view.mem w' q ≡ view.mem (resume_and_wait p called).1 q)
      unfolding invoke
      invoke-HasReturned returned =
          let w1 = (resume_and_wait p called).1 in
          let w2 = (p.swdp_core_read 0 0xffffffff w1).2 in
          let at_agent : (p.swdp_core_read 15 0xffffffff w2).1 ≡ agent.load_addr =
            device.core_read_value 15 0xffffffff w2
            ∙ device.core_read_reg 0 0xffffffff w1 15
            ∙ returned.at_start in
          let status : (p.swdp_core_read 0 0xffffffff w1).1 ≡ 0 =
            device.core_read_value 0 0xffffffff w1 ∙ returned.status in
          (
            (p.swdp_core_read 15 0xffffffff w2).2,
            rw (returned.halted, at_agent, status) (ground arith),
            λ q. device.core_read_mem 15 0xffffffff w2 q ∙ device.core_read_mem 0 0xffffffff w1 q,
          )
