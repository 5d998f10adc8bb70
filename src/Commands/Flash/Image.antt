-- ===== src/Commands/Flash/Image.antt =====
-- The image that `run_flash_agent` of tools/debugger-commands.c leaves in flash.
use m3dev.Base.{
  ℕ, zero, suc, ◌+◌, ◌-◌, ◌%◌, ◌≤◌, ◌<◌, ◌≡◌, ◌⊎◌, List, ltb, if◌then◌else◌, length, get_or,
}
use m3dev.Commands.{Probe}
use m3dev.Commands.Flash.{FlashAgent}
use m3dev.Commands.Flash.Agent.{View, IsHalted, IsAgent}

module _ {W : Type 0} (p : Probe W) (view : View W) (agent : FlashAgent)
    {Erasable Writable : ℕ → ℕ → Type 0} {Stores : ℕ → Type 0} (device : IsHalted p view Stores)
    (flashes : IsAgent p view agent Erasable Writable) (buffer : Stores agent.data_addr) where
  record IsFlashed (a : ℕ) (image : List ℕ) (w w' : W) : Type 0 where
    pub image_there : (i : ℕ) → i < length image → view.mem w' (a + i) ≡ get_or image i 0
    pub kept_before : (q : ℕ) → agent.flash_addr ≤ q → q < a → view.mem w' q ≡ view.mem w q

  abbrev xfer_of : ℕ → ℕ
  xfer_of n = if ltb agent.data_size n then agent.data_size else n

  -- What is taken of `n` bytes that are left: a full buffer, or all of them.
  record IsShare (n x : ℕ) : Type 0 where
    whole_share : x % 4 ≡ 0
    within : x ≤ n
    small : x ≤ agent.data_size
    some_bytes : 0 < x
    full_or_last : (x ≡ agent.data_size) ⊎ (x ≡ n)

  -- The agent takes the chunks of `n` bytes from `a` on: full buffers, and what is left.
  abbrev pub AreWritable : ℕ → ℕ → ℕ → Type 0
  AreWritable zero a n = Unit {0}
  AreWritable (suc fuel) a n =
      (0 < n → Writable a (xfer_of n)) × AreWritable fuel (a + xfer_of n) (n - xfer_of n)
