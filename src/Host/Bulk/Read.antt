-- ===== src/Host/Bulk/Read.antt =====
-- `swdp_ahb_read32` as a whole: its chunks make up the block.
use m3dev.Base.{ℕ, ◌+◌, ◌*◌, ◌≤◌, ◌<◌, ◌≡◌, ◌⊎◌}
use m3dev.Host.Txn.{Txn}
use m3dev.Host.Bulk.Machine.{Machine}

module _ {H : Type 0} (mem : H → ℕ → ℕ) (target : ℕ → ℕ) where
  -- The host's words from `out` on are the target's `n` words from `addr` on, and the host's memory
  -- below and above them is as before.
  pub record Copied (addr out n : ℕ) (before after : H) : Type 0 where
    pub inside : (i : ℕ) → i < n → mem after (out + 4 * i) ≡ target (addr + 4 * i)
    pub outside : (p : ℕ) → (p < out) ⊎ (out + 4 * n ≤ p) → mem after p ≡ mem before p
