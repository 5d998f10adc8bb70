-- ===== src/FlashAgents/Tests.antt =====
-- Erasing sectors on a small flash controller.
use m3dev.Base.{
  ℕ, zero, ◌-◌, ◌/◌, ◌%◌, ◌<◌, ◌≡◌, refl, ap, arith, Bool, true, false, List, [], ◌∷◌, ◌++◌, Option,
  none, some, ◌==◌, ◌&&◌, if◌then◌else◌, bit_or, every, every_sound,
}
use m3dev.FlashAgents.Stm32.{
  Registers, flash_cr_ser, flash_cr_strt, flash_cr_snb, flash_agent_erase,
}
use m3dev.FlashAgents.Sectors.{counting, IsController, Covers, flash_agent_erase-Covers}

-- The sector that a word written to the control register starts to erase.
abbrev decode : ℕ → Option ℕ
decode v = if v / 0x10000 == 1 then some (v / 8 % 16) else none

abbrev select : ℕ → ℕ
select n = bit_or flash_cr_ser (flash_cr_snb n)

abbrev start : ℕ → ℕ
start n = bit_or (bit_or flash_cr_strt flash_cr_ser) (flash_cr_snb n)

abbrev append_sector : Option ℕ → List ℕ → List ℕ
append_sector none w = w
append_sector (some n) w = w ++ (n ∷ [])

-- The state is the list of the sectors.
abbrev registers : Registers (List ℕ)
registers = record { writel = λ v a w. append_sector (decode v) w; readl = λ a w. (0, w) }

abbrev is_decoded : ℕ → Bool
is_decoded n = elim (decode (start n)) [
  | none ↦ false
  | some m ↦ m == n && elim (decode (select n)) [ none ↦ true | some k ↦ false ]
]

all_decoded : every 12 is_decoded ≡ true
unfolding every
all_decoded = refl

decode-start : (n : ℕ) → n < 12 → decode (start n) ≡ some n
decode-start n lt = ground (arith, every_sound 12 is_decoded n all_decoded lt)

decode-select : (n : ℕ) → n < 12 → decode (select n) ≡ none
decode-select n lt = ground (arith, every_sound 12 is_decoded n all_decoded lt)

registers-IsController : IsController registers (λ w. w) 1
registers-IsController = record {
  selects = λ n w lt. ap (λ o. append_sector o w) (decode-select n lt);
  starts = λ n w lt. ap (λ o. append_sector o w) (decode-start n lt);
  reads = λ w. refl;
  becomes_ready = λ w. (zero, omega arith, refl);
  works = λ w e. refl;
}

-- 160 KB from the fourth sector on.
flash_agent_erase-Covers_example :
    (w' : List ℕ) × (m : ℕ) × (flash_agent_erase registers 1 0xC000 0x28000 [] ≡ some (0, w'))
    × (w' ≡ [] ++ counting (m - 3) 3)
    × Covers registers (λ w. w) 1 registers-IsController 3 m 0xC000 0x28000
flash_agent_erase-Covers_example =
    flash_agent_erase-Covers registers (λ w. w) 1 registers-IsController 3 0xC000 0x28000 []
      (omega arith) refl
