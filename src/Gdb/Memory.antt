-- ===== src/Gdb/Memory.antt =====
-- `write_memory` of tools/gdb-bridge.c: bytes written through aligned words.
pub mod Bytes
pub mod Store
mod Tests
use m3dev.Base.{
  ℕ, zero, suc, ◌+◌, ◌-◌, ◌*◌, ◌/◌, ◌%◌, List, [], ◌∷◌, ◌==◌, ltb, not, if◌then◌else◌, length,
  get_or, take, drop, bit_and, u32,
}
use m3dev.Target.{Target}

-- The word `x` with one of its bytes replaced, little-endian.
abbrev pub set_byte : ℕ → ℕ → ℕ → ℕ
set_byte x zero b = x / 256 * 256 + b
set_byte x (suc j) b = set_byte (x / 256) j b * 256 + x % 256

-- `memcpy(((char*) &x) + offset, data, count)` of all the bytes given.
abbrev pub poke : ℕ → ℕ → List ℕ → ℕ
poke x offset [] = x
poke x offset (b ∷ bs) = poke (set_byte x offset b) (offset + 1) bs

-- The words that `n` times four bytes are read as.
abbrev pub words : ℕ → List ℕ → List ℕ
words zero bs = []
words (suc n) bs =
    (get_or bs 0 0 + 256 * (get_or bs 1 0 + 256 * (get_or bs 2 0 + 256 * get_or bs 3 0)))
    ∷ words n (drop 4 bs)

module _ {W : Type 0} (target : Target W) where
  -- The read-modify-write of bytes of the word at `base`.
  unfoldable pub patch_word : ℕ → ℕ → List ℕ → W → W
  patch_word base offset bs w =
      let (r, x, w1) = target.swdp_ahb_read base w in
      target.swdp_ahb_write base (poke x offset bs) w1

  -- From `if (len > 3)` on.
  unfoldable pub write_aligned : ℕ → List ℕ → W → W
  write_aligned addr bs w =
      let n = length bs / 4 in
      let count = 4 * n in
      let behind = drop count bs in
      let w' = target.swdp_ahb_write32 addr (words n bs) w in
      if ltb 3 (length bs)
      then (if ltb 0 (length behind) then patch_word (u32 (addr + count)) 0 behind w' else w')
      else if ltb 0 (length bs)
      then patch_word addr 0 bs w
      else w

  unfoldable pub write_memory : ℕ → List ℕ → W → W
  write_memory addr bs w =
      let offset = bit_and addr 3 in
      let count = if ltb (length bs) (4 - offset) then length bs else 4 - offset in
      let w' = patch_word (bit_and addr 0xFFFFFFFC) offset (take count bs) w in
      if ltb (length bs) 1
      then w
      else if not (offset == 0)
      then write_aligned (u32 (addr + count)) (drop count bs) w'
      else write_aligned addr bs w
