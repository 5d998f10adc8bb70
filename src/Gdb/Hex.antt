-- ===== src/Gdb/Hex.antt =====
-- Hexadecimal coding in tools/gdb-bridge.c, and what it calls of the C library.
use m3dev.Base.{ℕ, ◌+◌, ◌-◌, ◌/◌, ◌%◌, List, [], ◌∷◌, Option, ltb, if◌then◌else◌}
use m3dev.Gdb.{Gdbcnxn, gdb_putc}

-- `strtoul` to the base 16, `sscanf` of "%x,%x" and "%x,%x,%x" where it fills all, and `sprintf`
-- of "%x" and "%02x". Texts stand without their zeros, and numbers are 32-bit.
pub record CLibrary : Type 0 where
  pub strtoul : List ℕ → ℕ
  pub scan2 : List ℕ → Option (ℕ × ℕ)
  pub scan3 : List ℕ → Option (ℕ × ℕ × ℕ)
  pub hex : ℕ → List ℕ
  pub hex2 : ℕ → List ℕ

-- `HEX[n]`
abbrev pub hex_digit : ℕ → ℕ
hex_digit n = if ltb n 10 then b'0' + n else b'a' + (n - 10)

unfoldable pub gdb_puthex : {W : Type 0} → List ℕ → Gdbcnxn W → Gdbcnxn W
gdb_puthex [] gc = gc
gdb_puthex (c ∷ cs) gc =
    gdb_puthex cs (gdb_putc (hex_digit (c % 16)) (gdb_putc (hex_digit (c / 16)) gc))

module _ (c_library : CLibrary) where
  unfoldable pub unhex : ℕ → ℕ → ℕ
  unhex x0 x1 = c_library.strtoul (x0 ∷ x1 ∷ [])

  -- The bytes decoded, stored as `unsigned char`; `max` counts the digits.
  unfoldable pub hextobin : List ℕ → ℕ → List ℕ
  unfolding unhex
  hextobin [] max = []
  hextobin (x0 ∷ []) max = []
  hextobin (x0 ∷ x1 ∷ src) max =
      let rest = hextobin src (max - 2) in if ltb 0 max then unhex x0 x1 % 256 ∷ rest else []
