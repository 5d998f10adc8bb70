-- ===== src/Commands/Flash/Chunk.antt =====
-- One chunk of the image that `run_flash_agent` of tools/debugger-commands.c writes.
use m3dev.Base.{
  ℕ, ◌+◌, ◌-◌, ◌*◌, ◌/◌, ◌%◌, ◌≤◌, ◌<◌, ◌≡◌, refl, ap, ◌∙◌, arith, List, true, false, ◌&&◌, ltb,
  leb, length, get_or,
}
use m3dev.Gdb.Memory.{words}
use m3dev.Gdb.Memory.Bytes.{AreBytes, byte_of-words, length-words}
use m3dev.Commands.{Probe}
use m3dev.Commands.Flash.{FlashAgent, invoke}
use m3dev.Commands.Flash.Agent.{
  View, flash_end, IsHalted, IsAgent, called, set_up_call-IsEntered, set_up_call-mem,
  invoke-HasReturned,
}

module _ {W : Type 0} (p : Probe W) (view : View W) (agent : FlashAgent)
    {Erasable Writable : ℕ → ℕ → Type 0} {Stores : ℕ → Type 0} (device : IsHalted p view Stores)
    (flashes : IsAgent p view agent Erasable Writable) (buffer : Stores agent.data_addr) where
  -- The bytes of the buffer behind a download.
  abbrev pub downloaded : ℕ → List ℕ → W → W
  downloaded xfer image w = (p.swdp_ahb_write32 agent.data_addr (words (xfer / 4) image) w).1

  downloaded-buffer :
      (xfer i : ℕ) (image : List ℕ) (w : W)
      → AreBytes image
      → xfer % 4 ≡ 0
      → i < xfer
      → view.mem (downloaded xfer image w) (agent.data_addr + i) ≡ get_or image i 0
  downloaded-buffer xfer i image w ok whole lt =
      let d = agent.data_addr in
      let ws = words (xfer / 4) image in
      let inside : (leb d (d + i) && ltb (d + i) (d + 4 * length ws)) ≡ true =
        ground (arith, length-words (xfer / 4) image) in
      let from_start : d + i - d ≡ i = omega arith in
      let parts : 4 * (i / 4) + i % 4 ≡ i = omega arith in
      device.store_mem d ws w (d + i) buffer
      ∙ rw (inside, from_start)
          (byte_of-words (xfer / 4) (i / 4) (i % 4) image ok (omega arith) (omega arith)
            ∙ ap (λ (k : ℕ). get_or image k 0) parts)

  downloaded-flash :
      (xfer q : ℕ) (image : List ℕ) (w : W)
      → xfer ≤ agent.data_size
      → agent.flash_addr ≤ q
      → q < flash_end agent
      → view.mem (downloaded xfer image w) q ≡ view.mem w q
  downloaded-flash xfer q image w le above below =
      let d = agent.data_addr in
      let ws = words (xfer / 4) image in
      let outside : (leb d q && ltb q (d + 4 * length ws)) ≡ false =
        ground (arith, length-words (xfer / 4) image, flashes.apart) in
      device.store_mem d ws w q buffer ∙ rw outside refl

  -- One chunk, downloaded and written to erased flash.
  pub record Written (a xfer : ℕ) (image : List ℕ) (w w' : W) : Type 0 where
    pub stored : (i : ℕ) → i < xfer → view.mem w' (a + i) ≡ get_or image i 0
    pub before : (q : ℕ) → agent.flash_addr ≤ q → q < a → view.mem w' q ≡ view.mem w q
    pub behind :
        xfer ≡ agent.data_size
        → (q : ℕ) → a + xfer ≤ q
        → q < flash_end agent
        → view.mem w' q ≡ view.mem w q

  module _ (a xfer : ℕ) (image : List ℕ) (w : W) (ok : AreBytes image) (whole : xfer % 4 ≡ 0)
      (small : xfer ≤ agent.data_size) (above : agent.flash_addr ≤ a)
      (below : a + xfer ≤ flash_end agent) (takes : Writable a xfer)
      (erased : (q : ℕ) → a ≤ q → q < a + xfer → view.mem w q ≡ 0xFF) where
    pub chunk-Written :
        (w' : W) × (invoke p agent.load_addr agent.write a agent.data_addr xfer 0
            (downloaded xfer image w)
          ≡ (0, w'))
        × Written a xfer image w w'
    chunk-Written =
        let w1 = downloaded xfer image w in
        let w2 = called p view agent device agent.write a agent.data_addr xfer 0 w1 in
        let same = set_up_call-mem p view agent device agent.write a agent.data_addr xfer 0 w1 in
        let still : (q : ℕ)
            → agent.flash_addr ≤ q
            → q < flash_end agent
            → view.mem w2 q ≡ view.mem w q =
          λ q l h. same q ∙ downloaded-flash xfer q image w small l h in
        let (returned, stores, keeps_before, keeps_behind) =
          flashes.writes a xfer w2 above below small takes
            (λ q l h. still q (omega arith) (omega arith) ∙ erased q l h)
            (set_up_call-IsEntered p view agent device agent.write a agent.data_addr xfer 0 w1) in
        let (w', e, mem') =
          invoke-HasReturned p view agent device agent.write a agent.data_addr xfer 0 w1 returned in
        (
          w',
          e,
          record {
            stored = λ i lt.
                mem' (a + i)
                ∙ stores i lt
                ∙ same (agent.data_addr + i)
                ∙ downloaded-buffer xfer i image w ok whole lt;
            before = λ q l h. mem' q ∙ keeps_before q l h ∙ still q l (omega arith);
            behind = λ full q l h. mem' q ∙ keeps_behind full q l h ∙ still q (omega arith) h;
          },
        )
