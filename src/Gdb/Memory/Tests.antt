-- ===== src/Gdb/Memory/Tests.antt =====
-- Bytes written through words at a concrete place.
use m3dev.Base.{
  true, ℕ, ◌+◌, ◌*◌, ◌-◌, ◌/◌, ◌≡◌, refl, arith, List, [], ◌∷◌, replicate, ◌==◌, ltb, leb, ◌&&◌,
  length, get_or, if◌then◌else◌,
}
use m3dev.Target.{Target}
use m3dev.Gdb.Memory.{write_memory}
use m3dev.Gdb.Memory.Store.{IsMemory, byte, byte-write_memory}

abbrev Words : Type 0
Words = ℕ → ℕ

abbrev plain : Target Words
plain = record {
  calloc = λ w. (true, w);
  swdp_ahb_read = λ a w. (0, w a, w);
  swdp_ahb_write = λ a v w p. if p == a then v else w p;
  swdp_ahb_read32 = λ a n w. (0, replicate n 0, w);
  swdp_ahb_write32 =
      λ a vs w p. if leb a p && ltb p (a + 4 * length vs) then get_or vs ((p - a) / 4) 0 else w p;
  swdp_core_read = λ n w. (0, 0, w);
  swdp_core_write = λ n v w. w;
  swdp_core_read_all = λ w. (replicate 19 0, w);
  swdp_core_halt = λ w. w;
  swdp_core_step = λ w. w;
  swdp_core_resume = λ w. w;
  swdp_watchpoint_pc = λ n a w. w;
  swdp_watchpoint_disable = λ n w. w;
}

plain-IsMemory : IsMemory plain (λ w a. w a)
plain-IsMemory = record {
  read_value = λ a w h. refl;
  read_keeps = λ a p w. refl;
  write_word = λ a v p w h. refl;
  write32_words = λ a vs p w h h' fits. refl;
}

abbrev seven : List ℕ
seven = 1 ∷ 2 ∷ 3 ∷ 4 ∷ 5 ∷ 6 ∷ 7 ∷ []

-- Two bytes of a word, a word, and a byte of a third, which is read back.
byte-write_memory_example :
    byte plain plain-IsMemory (write_memory plain 0x20000002 seven (λ p. 0xFFFFFFFF)) 0x20000008 ≡ 7
byte-write_memory_example =
    byte-write_memory plain plain-IsMemory 0x20000002 seven 0x20000008 (λ p. 0xFFFFFFFF)
      (omega arith) (omega arith)
