-- ===== src/Host/Bulk/Write.antt =====
-- `swdp_ahb_write32` as a whole: its chunks make up the block.
use m3dev.Base.{ℕ, ◌+◌, ◌*◌, ◌≤◌, ◌<◌, ◌≡◌, ◌⊎◌}
use m3dev.Host.Txn.{Txn}
use m3dev.Host.Bulk.Machine.{Machine}

module _ {H : Type 0} (target : H → ℕ → ℕ) where
  -- The target's words from `addr` on are `vals 0`, …, `vals (n - 1)`, and its memory below and
  -- above them is as before.
  pub record Stored (vals : ℕ → ℕ) (addr n : ℕ) (before after : H) : Type 0 where
    pub inside : (i : ℕ) → i < n → target after (addr + 4 * i) ≡ vals i
    pub outside : (p : ℕ) → (p < addr) ⊎ (addr + 4 * n ≤ p) → target after p ≡ target before p
