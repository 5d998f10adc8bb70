-- ===== src/Wire/Reverse.antt =====
-- `revbits` of m3debug/swdp.c against the reversed order of the digits.
use m3dev.Base.{
  ℕ, zero, suc, ◌-◌, ◌^◌, ◌<◌, ◌≡◌, refl, sym, ap, ◌∙◌, Bool, true, false, List, [], ◌++◌, take,
  drop, replicate, bit_and, bit_or, u32, ◌<<<◌, ◌>>>◌,
}
use m3dev.Wire.{revbits}
use m3dev.Wire.Digits.{
  from_bits, bit, bits_from, complement, merge, shift_left, shift_right, wrap, from_bits-bit,
  bit_or-merge,
}

-- Digits that take turns in runs of `n`, `k` runs of each, the set ones first.
abbrev runs : ℕ → ℕ → List Bool
runs n zero = []
runs n (suc k) = replicate n true ++ (replicate n false ++ runs n k)

-- What one line of `revbits` makes of the digits: those from `n` places above and from `n` places
-- below take turns.
abbrev swap_runs : ℕ → ℕ → List Bool → List Bool
swap_runs n k bs = merge (runs n k) (drop n bs) (take 32 (replicate n false ++ bs))

-- One line of `revbits`, `m` and `m'` being its masks.
swap_runs_lem :
    (n k m m' : ℕ)
    → from_bits (runs n k) ≡ m
    → from_bits (complement (runs n k)) ≡ m'
    → (bs : List Bool)
    → bit_or (bit_and (from_bits bs >>> n) m) (bit_and (u32 (from_bits bs <<< n)) m')
      ≡ from_bits (swap_runs n k bs)
swap_runs_lem n k m m' e e' bs =
    rw (← e, ← e', shift_right n bs, shift_left n bs, wrap 32 (replicate n false ++ bs))
      (bit_or-merge (runs n k) (drop n bs) (take 32 (replicate n false ++ bs)))

-- With digits `f 0`, …, `f 31`, `revbits` gives the number with the digits in the other order.
pub revbits-from_bits :
    (f : ℕ → Bool)
    → revbits (from_bits (bits_from 32 0 f)) ≡ from_bits (bits_from 32 0 (λ i. f (31 - i)))
unfolding revbits
revbits-from_bits f =
    let l0 = bits_from 32 0 f in
    let l1 = swap_runs 1 16 l0 in
    let l2 = swap_runs 2 8 l1 in
    let l3 = swap_runs 4 4 l2 in
    let l4 = swap_runs 8 2 l3 in
    let e1 =
      swap_runs_lem 1 16 0x55555555 0xaaaaaaaa (unfold from_bits in refl) (unfold from_bits in refl)
        l0 in
    let e2 =
      swap_runs_lem 2 8 0x33333333 0xcccccccc (unfold from_bits in refl) (unfold from_bits in refl)
        l1 in
    let e3 =
      swap_runs_lem 4 4 0x0f0f0f0f 0xf0f0f0f0 (unfold from_bits in refl) (unfold from_bits in refl)
        l2 in
    let e4 =
      swap_runs_lem 8 2 0x00ff00ff 0xff00ff00 (unfold from_bits in refl) (unfold from_bits in refl)
        l3 in
    let e5 =
      swap_runs_lem 16 1 0x0000ffff 0xffff0000 (unfold from_bits in refl) (unfold from_bits in refl)
        l4 in
    rw (e1, e2, e3, e4, e5)

-- For every 32-bit number, `revbits` gives the number whose digit `i` is digit `31 - i` of it.
pub revbits-bits :
    (n : ℕ) → n < 2 ^ 32 → revbits n ≡ from_bits (bits_from 32 0 (λ i. bit n (31 - i)))
revbits-bits n lt = ap revbits (sym (from_bits-bit 32 n lt)) ∙ revbits-from_bits (bit n)
