-- ===== src/Gdb/Memory/Store.antt =====
-- `write_memory` of tools/gdb-bridge.c over a memory of words.
use m3dev.Base.{
  get_or-drop, ℕ, zero, suc, ◌+◌, ◌-◌, ◌*◌, ◌/◌, ◌%◌, ◌^◌, ◌<◌, ◌≤◌, ◌≡◌, ◌≢◌, refl, ap, subst,
  ltb→lt, arith, List, [], ◌∷◌, ◌&&◌, ◌==◌, ltb, leb, if◌then◌else◌, length, get_or, take, drop,
  length-take, bit_and, bit_and_mask, bit_and_field, u32, Bool-cases, inl, inr,
}
use m3dev.Target.{Target}
use m3dev.Gdb.Memory.{poke, words, patch_word, write_aligned, write_memory}
use m3dev.Gdb.Memory.Bytes.{
  byte_of, AreBytes, byte_of-poke, get_or-take, length-drop, length-words, drop-AreBytes,
  take-AreBytes, byte_of-words,
}

module _ {W : Type 0} (target : Target W) where
  -- A memory of 32-bit words behind the link: reads give the word and change nothing, writes change
  -- the words written and no others.
  pub record IsMemory (word : W → ℕ → ℕ) : Type 0 where
    pub read_value : (a : ℕ) (w : W) → a % 4 ≡ 0 → (target.swdp_ahb_read a w).1 ≡ word w a
    pub read_keeps : (a p : ℕ) (w : W) → word (target.swdp_ahb_read a w).2 p ≡ word w p
    pub write_word :
        (a v p : ℕ) (w : W)
        → a % 4 ≡ 0
        → word (target.swdp_ahb_write a v w) p ≡ (if p == a then v else word w p)
    pub write32_words :
        (a : ℕ) (vs : List ℕ) (p : ℕ) (w : W)
        → a % 4 ≡ 0
        → p % 4 ≡ 0
        → a + 4 * length vs ≤ 2 ^ 32
        → word (target.swdp_ahb_write32 a vs w) p
          ≡ (if leb a p && ltb p (a + 4 * length vs) then get_or vs ((p - a) / 4) 0 else word w p)

  module _ {word : W → ℕ → ℕ} (memory : IsMemory word) where
    abbrev pub byte : W → ℕ → ℕ
    byte w p = byte_of (word w (p - p % 4)) (p % 4)

    -- From the address `a` on the memory holds the bytes, and else what it held.
    abbrev pub Stores : ℕ → List ℕ → W → W → Type 0
    Stores a bs w w' =
        (p : ℕ)
        → byte w' p ≡ (if leb a p && ltb p (a + length bs) then get_or bs (p - a) 0 else byte w p)

    patch_word-Stores :
        (base off : ℕ) (bs : List ℕ) (w : W)
        → base % 4 ≡ 0
        → off + length bs ≤ 4
        → AreBytes bs
        → Stores (base + off) bs w (patch_word target base off bs w)
    unfolding patch_word
    patch_word-Stores base off bs w aligned fits ok p =
        let x = (target.swdp_ahb_read base w).1 in
        let w1 = (target.swdp_ahb_read base w).2 in
        ground (
          arith,
          memory.write_word base (poke x off bs) (p - p % 4) w1 aligned,
          memory.read_keeps base (p - p % 4) w,
          memory.read_value base w aligned,
          byte_of-poke x off bs (p % 4) ok,
        )

    write32-Stores :
        (a n : ℕ) (bs : List ℕ) (w : W)
        → a % 4 ≡ 0
        → a + 4 * n ≤ 2 ^ 32
        → 4 * n ≤ length bs
        → AreBytes bs
        → Stores a (take (4 * n) bs) w (target.swdp_ahb_write32 a (words n bs) w)
    write32-Stores a n bs w aligned fits enough ok p =
        let q = (p - p % 4 - a) / 4 in
        ground (
          arith,
          memory.write32_words a (words n bs) (p - p % 4) w aligned,
          length-words n bs,
          byte_of-words n q (p % 4) bs ok,
          length-take (4 * n) bs,
          get_or-take (4 * n) (p - a) bs,
        )

    -- Bytes stored behind others.
    Stores-trans :
        (a : ℕ) (n : ℕ) (bs : List ℕ) (w w1 w2 : W)
        → n ≤ length bs
        → Stores a (take n bs) w w1
        → Stores (a + n) (drop n bs) w1 w2
        → Stores a bs w w2
    Stores-trans a n bs w w1 w2 le s t p = ground (
      arith,
      s p,
      t p,
      length-take n bs,
      length-drop n bs,
      get_or-take n (p - a) bs,
      get_or-drop n (p - (a + n)) bs,
    )

    patch_word0-Stores :
        (base : ℕ) (bs : List ℕ) (w : W)
        → base % 4 ≡ 0
        → length bs ≤ 4
        → AreBytes bs
        → Stores base bs w (patch_word target base 0 bs w)
    patch_word0-Stores base bs w aligned fits ok =
        let e : base + 0 ≡ base = omega arith in
        subst (λ b. Stores b bs w (patch_word target base 0 bs w)) e
          (patch_word-Stores base 0 bs w aligned (omega arith) ok)

    take-length : (bs : List ℕ) (n : ℕ) → length bs ≤ n → take n bs ≡ bs
    take-length [] zero h = refl
    take-length [] (suc n) h = refl
    take-length (b ∷ bs) zero h = absurd (omega arith)
    take-length (b ∷ bs) (suc n) h = ap (λ xs. b ∷ xs) (take-length bs n (omega arith))

    write_aligned-Stores :
        (a : ℕ) (bs : List ℕ) (w : W)
        → a % 4 ≡ 0
        → a + length bs ≤ 2 ^ 32
        → AreBytes bs
        → Stores a bs w (write_aligned target a bs w)
    unfolding write_aligned
    write_aligned-Stores a bs w aligned fits ok =
        let n = length bs / 4 in
        let behind = drop (4 * n) bs in
        let w' = target.swdp_ahb_write32 a (words n bs) w in
        let len = length-drop (4 * n) bs in
        let first = write32-Stores a n bs w aligned (omega arith) (omega arith) ok in
        elim (Bool-cases (ltb 3 (length bs))) [
          | inl long ↦ elim (Bool-cases (ltb 0 (length behind))) [
            | inl more ↦
                let lt = ltb→lt 0 (length behind) more in
                let e : u32 (a + 4 * n) ≡ a + 4 * n = omega (arith, lt, len) in
                rw (long, more, e)
                  (Stores-trans a (4 * n) bs w w' (patch_word target (a + 4 * n) 0 behind w')
                    (omega arith) first
                    (patch_word0-Stores (a + 4 * n) behind w' (omega arith) (omega (arith, len))
                      (drop-AreBytes (4 * n) bs ok)))
            | inr done ↦
                rw (long, done)
                  (subst (λ xs. Stores a xs w w')
                    (take-length bs (4 * n) (ground (arith, done, len))) first)
          ]
          | inr short ↦ elim (Bool-cases (ltb 0 (length bs))) [
            | inl more ↦
                rw (short, more) (patch_word0-Stores a bs w aligned (ground (arith, short)) ok)
            | inr done ↦ rw (short, done) (λ p. ground (arith, done))
          ]
        ]

    write_aligned-empty :
        (a : ℕ) (bs : List ℕ) (w : W) → length bs ≡ 0 → write_aligned target a bs w ≡ w
    unfolding write_aligned
    write_aligned-empty a bs w e = ground (arith, e)

    -- What follows the part of the first word may be empty, at the end of the address space.
    write_rest-Stores :
        (a : ℕ) (bs : List ℕ) (w : W)
        → (0 < length bs → a % 4 ≡ 0)
        → a + length bs ≤ 2 ^ 32
        → AreBytes bs
        → Stores a bs w (write_aligned target (u32 a) bs w)
    write_rest-Stores a bs w aligned fits ok = elim (Bool-cases (ltb 0 (length bs))) [
      | inl more ↦
          let lt = ltb→lt 0 (length bs) more in
          let e : u32 a ≡ a = omega arith in rw e (write_aligned-Stores a bs w (aligned lt) fits ok)
      | inr done ↦
          rw (write_aligned-empty (u32 a) bs w (ground (arith, done))) (λ p. ground (arith, done))
    ]

    unaligned_case :
        (a : ℕ) (bs : List ℕ) (w : W)
        → a + length bs ≤ 2 ^ 32
        → AreBytes bs
        → 0 < length bs
        → a % 4 ≢ 0
        → let n = if ltb (length bs) (4 - a % 4) then length bs else 4 - a % 4 in
          Stores a bs w (
            write_aligned target
              (u32 (a + n))
              (drop n bs)
              (patch_word target (a / 4 % 2 ^ 30 * 4) (a % 4) (take n bs) w))
    unaligned_case a bs w fits ok some_bytes unaligned =
        let off = a % 4 in
        let base = a / 4 % 2 ^ 30 * 4 in
        let n = if ltb (length bs) (4 - off) then length bs else 4 - off in
        let n_bounds : (n ≤ length bs) × (n ≤ 4 - off) = ground arith in
        let len_take = length-take n bs in
        let len_drop = length-drop n bs in
        let w1 = patch_word target base off (take n bs) w in
        let e : base + off ≡ a = omega arith in
        let first =
          subst (λ b. Stores b (take n bs) w w1) e
            (patch_word-Stores base off (take n bs) w (omega arith)
              (omega (arith, len_take, n_bounds.1)) (take-AreBytes n bs ok)) in
        let second =
          write_rest-Stores (a + n) (drop n bs) w1 (λ lt. ground (arith, lt, len_drop))
            (omega (arith, len_drop, n_bounds.0)) (drop-AreBytes n bs ok) in
        Stores-trans a n bs w w1 (write_aligned target (u32 (a + n)) (drop n bs) w1) (n_bounds.0)
          first second

    write_memory-Stores :
        (a : ℕ) (bs : List ℕ) (w : W)
        → a + length bs ≤ 2 ^ 32
        → AreBytes bs
        → Stores a bs w (write_memory target a bs w)
    unfolding write_memory
    write_memory-Stores a bs w fits ok =
        let off = a % 4 in
        let base = a / 4 % 2 ^ 30 * 4 in
        let n = if ltb (length bs) (4 - off) then length bs else 4 - off in
        let e1 : bit_and a 3 ≡ off = bit_and_mask 2 a in
        let e2 : bit_and a 0xFFFFFFFC ≡ base = bit_and_field 2 30 a in
        elim (Bool-cases (ltb (length bs) 1)) [
          | inl empty ↦ rw empty (λ p. ground (arith, empty))
          | inr some_bytes ↦ elim (Bool-cases (off == 0)) [
            | inl aligned ↦
                rw (some_bytes, e1, aligned)
                  (write_aligned-Stores a bs w (ground (arith, aligned)) fits ok)
            | inr unaligned ↦
                rw (some_bytes, e1, e2, unaligned)
                  (unaligned_case a bs w fits ok (ground (arith, some_bytes))
                    (ground (arith, unaligned)))
          ]
        ]

    -- From the address on the memory holds the bytes given, and every other byte is what it was,
    -- wherever the bytes begin and end, up to the end of the address space.
    pub byte-write_memory :
        (a : ℕ) (bs : List ℕ) (p : ℕ) (w : W)
        → a + length bs ≤ 2 ^ 32
        → AreBytes bs
        → byte (write_memory target a bs w) p
          ≡ (if leb a p && ltb p (a + length bs) then get_or bs (p - a) 0 else byte w p)
    byte-write_memory a bs p w fits ok = write_memory-Stores a bs w fits ok p
