-- ===== src/Wire/Parity.antt =====
-- `parity` of m3debug/swdp.c against the number of ones.
use m3dev.Base.{
  ℕ, zero, suc, ◌+◌, ◌-◌, ◌*◌, ◌/◌, ◌%◌, ◌^◌, ◌≤◌, ◌<◌, ◌≡◌, refl, ap, arith, bit_and, ◌>>>◌,
  bit_and_mask, bit_and_split,
}
use native.Mathlib.Nat.{
  mod-eq_of_lt, div-eq_of_lt, one-le-pow, zero-div, mul-div_left, mod-mod, mul-add-mod_self_right,
  mul-add-div_right, mul-le-mul_left,
}
use m3dev.Wire.{parity}

-- The sum of the `k` lowest digits to the base `q`.
unfoldable pub digit_sum : ℕ → ℕ → ℕ → ℕ
digit_sum q zero n = 0
digit_sum q (suc k) n = n % q + digit_sum q k (n / q)

-- How many of the 32 binary digits are 1.
unfoldable pub ones : ℕ → ℕ
ones n = digit_sum 2 32 n

-- The masks of the digits to the base `2 ^ w` in even places and in odd ones, `k` of each.
abbrev evens : ℕ → ℕ → ℕ
evens w zero = 0
evens w (suc k) = evens w k * 2 ^ w * 2 ^ w + (2 ^ w - 1)

abbrev odds : ℕ → ℕ → ℕ
odds w zero = 0
odds w (suc k) = (odds w k * 2 ^ w + (2 ^ w - 1)) * 2 ^ w

-- What one line of `parity` makes of a number: each pair of digits gives way to its sum.
pair_sums : ℕ → ℕ → ℕ → ℕ
pair_sums q zero n = 0
pair_sums q (suc k) n = pair_sums q k (n / q / q) * (q * q) + (n % q + n / q % q)

pair-lt : (q n : ℕ) → 2 ≤ q → n % q + n / q % q < q * q
pair-lt q n two = omega (arith, mul-le-mul_left q two)

-- Such a sum is a digit to the larger base.
digit_sum-pair_sums :
    (q k n : ℕ) → 2 ≤ q → digit_sum (q * q) k (pair_sums q k n) ≡ digit_sum q (k + k) n
unfolding digit_sum pair_sums
digit_sum-pair_sums q zero n two = refl
digit_sum-pair_sums q (suc k) n two =
    let r = n % q + n / q % q in
    let above = pair_sums q k (n / q / q) in
    let fits : r < q * q = pair-lt q n two in
    let count : suc k + suc k ≡ suc (suc (k + k)) = omega arith in
    rw count (
      ground (
        arith,
        mul-add-mod_self_right above (q * q) r,
        mul-add-div_right {m = q * q} (omega (arith, fits)) above r,
        mod-eq_of_lt fits,
        div-eq_of_lt fits,
        digit_sum-pair_sums q k (n / q / q) two,
      ))

bit_and-zero : (n : ℕ) → bit_and n 0 ≡ 0
bit_and-zero n = ground (arith, bit_and_mask 0 n)

pow-pos : (w : ℕ) → 0 < 2 ^ w
pow-pos w = omega (arith, one-le-pow w 2)

module _ (w k n : ℕ) where
  bit_and-evens :
      bit_and n (evens w (suc k))
      ≡ bit_and (n / 2 ^ w / 2 ^ w) (evens w k) * 2 ^ w * 2 ^ w + n % 2 ^ w
  bit_and-evens = ground (
    arith,
    one-le-pow w 2,
    bit_and_split w n (evens w k * 2 ^ w) (2 ^ w - 1),
    bit_and_split w (n / 2 ^ w) (evens w k) 0,
    bit_and-zero (n / 2 ^ w % 2 ^ w),
    bit_and_mask w (n % 2 ^ w),
    mod-mod n (2 ^ w),
  )

  bit_and-odds :
      bit_and n (odds w (suc k))
      ≡ (bit_and (n / 2 ^ w / 2 ^ w) (odds w k) * 2 ^ w + n / 2 ^ w % 2 ^ w) * 2 ^ w
  bit_and-odds = ground (
    arith,
    one-le-pow w 2,
    bit_and_split w n (odds w k * 2 ^ w + (2 ^ w - 1)) 0,
    bit_and_split w (n / 2 ^ w) (odds w k) (2 ^ w - 1),
    bit_and-zero (n % 2 ^ w),
    bit_and_mask w (n / 2 ^ w % 2 ^ w),
    mod-mod (n / 2 ^ w) (2 ^ w),
  )

-- The odd digits stand above a place of their own, which a shift and its reverse leave.
odds_whole : (w k n : ℕ) → (bit_and n (odds w k) >>> w) * 2 ^ w ≡ bit_and n (odds w k)
odds_whole w zero n = ground (arith, bit_and-zero n, zero-div (2 ^ w))
odds_whole w (suc k) n =
    let d = bit_and (n / 2 ^ w / 2 ^ w) (odds w k) * 2 ^ w + n / 2 ^ w % 2 ^ w in
    rw (bit_and-odds w k n) (ap (λ (y : ℕ). y * 2 ^ w) (mul-div_left d (pow-pos w)))

pair_sums_lem :
    (w k n : ℕ) → bit_and n (evens w k) + (bit_and n (odds w k) >>> w) ≡ pair_sums (2 ^ w) k n
unfolding pair_sums
pair_sums_lem w zero n = ground (arith, bit_and-zero n, zero-div (2 ^ w))
pair_sums_lem w (suc k) n =
    let q = 2 ^ w in
    let m = n / q / q in
    let a = bit_and m (evens w k) in
    let b = bit_and m (odds w k) in
    rw (bit_and-evens w k n, bit_and-odds w k n, mul-div_left (b * q + n / q % q) (pow-pos w))
      (ground (
        arith,
        odds_whole w k m,
        pair_sums_lem w k m,
        ap (λ (y : ℕ). y * q * q) (pair_sums_lem w k m),
        ap (λ (y : ℕ). y * q) (odds_whole w k m),
      ))

-- The remainder by 2 of the number of ones, on 32 bits.
pub parity-ones : (n : ℕ) → parity n ≡ ones n % 2
unfolding parity ones
parity-ones n =
    let n1 = pair_sums 2 16 n in
    let n2 = pair_sums 4 8 n1 in
    let n3 = pair_sums 16 4 n2 in
    let n4 = pair_sums 256 2 n3 in
    let n5 = pair_sums 65536 1 n4 in
    let e1 = pair_sums_lem 1 16 n in
    let e2 = pair_sums_lem 2 8 n1 in
    let e3 = pair_sums_lem 4 4 n2 in
    let e4 = pair_sums_lem 8 2 n3 in
    let e5 = pair_sums_lem 16 1 n4 in
    let last : digit_sum 0x100000000 1 n5 ≡ n5 % 0x100000000 + 0 = unfold digit_sum in refl in
    rw (e1, e2, e3, e4, e5)
      (ground (
        arith,
        bit_and_mask 1 n5,
        digit_sum-pair_sums 2 16 n (omega arith),
        digit_sum-pair_sums 4 8 n1 (omega arith),
        digit_sum-pair_sums 16 4 n2 (omega arith),
        digit_sum-pair_sums 256 2 n3 (omega arith),
        digit_sum-pair_sums 65536 1 n4 (omega arith),
        last,
      ))
