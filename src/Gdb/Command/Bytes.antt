-- ===== src/Gdb/Command/Bytes.antt =====
-- The bytes that the command `m` of tools/gdb-bridge.c shows.
use m3dev.Base.{
  ℕ, zero, suc, ◌+◌, ◌*◌, ◌/◌, ◌%◌, ◌≡◌, ◌≤◌, ◌∙◌, refl, ap, List, [], ◌∷◌, ◌++◌, arith, take, drop,
  length, bit_and, bit_and_mask, false, ltb,
}
use m3dev.Target.{Target}
use m3dev.Lk.{bytes_of_words}
use m3dev.Gdb.{Gdbcnxn}
use m3dev.Gdb.Hex.{CLibrary, gdb_puthex}
use m3dev.Gdb.Command.{read_range}

length-bytes_of_words : (xs : List ℕ) → length (bytes_of_words xs) ≡ 4 * length xs
length-bytes_of_words [] = refl
length-bytes_of_words (x ∷ xs) = ground (arith, length-bytes_of_words xs)

take-append : (n m : ℕ) (bs cs : List ℕ) → n ≡ length bs + m → take n (bs ++ cs) ≡ bs ++ take m cs
take-append n m [] cs e = ap (λ k. take k cs) (e ∙ omega arith)
take-append zero m (b ∷ bs) cs e = absurd (omega (arith, e))
take-append (suc n) m (b ∷ bs) cs e = ap (λ xs. b ∷ xs) (take-append n m bs cs (omega (arith, e)))

-- As many bytes as `bs` has, from the place `k` on.
take-drop-append :
    (n m k : ℕ) (bs cs : List ℕ)
    → k ≤ length bs
    → n + k ≡ length bs + m
    → take n (drop k (bs ++ cs)) ≡ drop k bs ++ take m cs
take-drop-append n m zero bs cs le e = take-append n m bs cs (omega (arith, e))
take-drop-append n m (suc k) [] cs le e = absurd (omega (arith, le))
take-drop-append n m (suc k) (b ∷ bs) cs le e =
    take-drop-append n m k bs cs (omega (arith, le)) (omega (arith, e))

module _ {W : Type 0} (target : Target W) (c_library : CLibrary)
    (debugger_command : List ℕ → W → List (List ℕ) × W) where
  -- Where the link delivers the words asked for, the command `m` for a number of
  -- whole words, up to 1024 bytes, at `x` puts the bytes of the words read, from `x` on; where `x` is
  -- not aligned its last bytes, as many as `x` lies behind a word's start, were never read, and are
  -- those that the stack held.
  pub read_range_lem :
      (stale xs : List ℕ) (x q r : ℕ) (gc : Gdbcnxn W) (world : W)
      → 1 ≤ q
      → 4 * q ≤ 1024
      → target.swdp_ahb_read32 (bit_and x 0xFFFFFFFC) q gc.world ≡ (r, xs, world)
      → length xs ≡ q
      → read_range target c_library debugger_command stale x (4 * q) gc
        ≡ gdb_puthex
            (drop (x % 4) (bytes_of_words xs) ++ take (x % 4) (drop (4 * q) stale))
            (record gc { world = world })
  unfolding read_range
  read_range_lem stale xs x q r gc world some_words room read delivered =
      let small : ltb 1024 (4 * q) ≡ false = ground (arith, room) in
      let words : (4 * q + 3) / 4 ≡ q = omega arith in
      let low : bit_and x 3 ≡ x % 4 = bit_and_mask 2 x in
      let whole : length (bytes_of_words xs) ≡ 4 * q =
        length-bytes_of_words xs ∙ ap (λ n. 4 * n) delivered in
      rw (small, words, read, delivered, low)
        (ap (λ bs. gdb_puthex bs (record gc { world = world }))
          (take-drop-append (4 * q) (x % 4) (x % 4) (bytes_of_words xs) (drop (4 * q) stale)
            (omega (arith, whole, some_words)) (omega (arith, whole))))
